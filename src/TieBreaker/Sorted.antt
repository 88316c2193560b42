-- ===== src/TieBreaker/Sorted.antt =====
-- Sorting forgets the order in which payloads arrived (kinetic-network/src/event_loop/utils.rs).
use mathlib.Core.List.{Permᴰ}
use kinetic.Prelude.{◌≡◌, refl, ◌∙◌, true, false, List, [], ◌∷◌, arith}
use kinetic.Prelude.Bytes.{Bytes}
use kinetic.TieBreaker.{bytes_le, insert_sorted, sort}

bytes_le_total : (a b : Bytes) → bytes_le a b ≡ false → bytes_le b a ≡ true
unfolding bytes_le
bytes_le_total [] b h = absurd (ground arith)
bytes_le_total (x ∷ a) [] h = refl
bytes_le_total (x ∷ a) (y ∷ b) h = ground (arith, bytes_le_total a b)

bytes_le_antisymm : (a b : Bytes) → bytes_le a b ≡ true → bytes_le b a ≡ true → a ≡ b
unfolding bytes_le
bytes_le_antisymm [] [] h g = refl
bytes_le_antisymm [] (y ∷ b) h g = absurd (ground arith)
bytes_le_antisymm (x ∷ a) [] h g = absurd (ground arith)
bytes_le_antisymm (x ∷ a) (y ∷ b) h g = ground (arith, bytes_le_antisymm a b)

bytes_le_trans : (a b c : Bytes) → bytes_le a b ≡ true → bytes_le b c ≡ true → bytes_le a c ≡ true
unfolding bytes_le
bytes_le_trans [] b c h g = refl
bytes_le_trans (x ∷ a) [] c h g = absurd (ground arith)
bytes_le_trans (x ∷ a) (y ∷ b) [] h g = absurd (ground arith)
bytes_le_trans (x ∷ a) (y ∷ b) (z ∷ c) h g = ground (arith, bytes_le_trans a b c)

insert_sorted_comm :
    (a b : Bytes) (xs : List Bytes)
    → insert_sorted a (insert_sorted b xs) ≡ insert_sorted b (insert_sorted a xs)
unfolding insert_sorted
insert_sorted_comm a b [] = ground (arith, bytes_le_total a b, bytes_le_antisymm a b)
insert_sorted_comm a b (y ∷ ys) = ground (
  arith,
  insert_sorted_comm a b ys,
  bytes_le_total a b,
  bytes_le_antisymm a b,
  bytes_le_trans a b y,
  bytes_le_trans b a y,
)

-- Lists that are permutations of one another are sorted alike.
pub sort-Perm : {xs ys : List Bytes} → Permᴰ xs ys → sort xs ≡ sort ys
unfolding sort
sort-Perm Permᴰ.nil = refl
sort-Perm (Permᴰ.cons e d) = ground (arith, e, sort-Perm d)
sort-Perm (Permᴰ.swap {a = a} {b = b} {l = l} e f) =
    ground (arith, e, f, insert_sorted_comm a b (sort l))
sort-Perm (Permᴰ.trans c d) = sort-Perm c ∙ sort-Perm d
