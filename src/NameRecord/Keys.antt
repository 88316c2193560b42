-- ===== src/NameRecord/Keys.antt =====
-- The DHT keys of a name (kinetic-types/src/name_record.rs).
use mathlib.Core.List.{Memᴰ}
use mathlib.Core.List.Memᴰ
use kinetic.Prelude.{ℕ, ◌≡◌, ◌≢◌, refl, sym, ap, ◌∙◌, List, [], ◌∷◌, arith, map, length}
use kinetic.Prelude.Bytes.{Bytes, codes, nth}
use kinetic.Config.{NetworkConstants, Platform}
use kinetic.Vdf.Signable.{prefix_inj}
use kinetic.NameRecord.{
  m_redundancy, indices, normalize_key_name, key_data, derive_storage_keys, derive_heartbeat_keys,
}

-- two texts with one hash
pub record Collision (p : Platform) : Type 0 where
  pub left : Bytes
  pub right : Bytes
  pub differ : left ≢ right
  pub same_hash : p.sha256 left ≡ p.sha256 right

module _ (k : NetworkConstants) (p : Platform) where
  key_data_inj :
      (domain name : Bytes) (i j : ℕ)
      → key_data k p domain name i ≡ key_data k p domain name j
      → i ≡ j
  unfolding key_data
  key_data_inj domain name i j e =
      ap (nth 0) (prefix_inj name _ _ (prefix_inj domain _ _ (prefix_inj k.network_salt _ _ e)))

  key_data_domain :
      (name : Bytes) (i j : ℕ)
      → key_data k p (codes "storage") name i ≢ key_data k p (codes "heartbeat") name j
  unfolding key_data
  key_data_domain name i j e =
      let h : 115 ≡ 104 = ap (nth 0) (prefix_inj k.network_salt _ _ e) in absurd (omega (arith, h))

  mem-map : (f : ℕ → Bytes) {x : Bytes} (is : List ℕ) → Memᴰ x (map f is) → (i : ℕ) × (x ≡ f i)
  mem-map f [] m = absurd (Memᴰ.not-nil m)
  mem-map f (i ∷ is) (Memᴰ.head e) = (i, e)
  mem-map f (i ∷ is) (Memᴰ.tail m) = mem-map f is m

  -- A name has 32 storage keys and 32 heartbeat keys, and a key that is both shows a collision of
  -- the hash function.
  pub storage-ne-heartbeat :
      (name x : Bytes)
      → Memᴰ x (derive_storage_keys k p name)
      → Memᴰ x (derive_heartbeat_keys k p name)
      → (length (derive_storage_keys k p name) ≡ 32)
        × (length (derive_heartbeat_keys k p name) ≡ 32)
        × Collision p
  unfolding derive_storage_keys derive_heartbeat_keys indices
  storage-ne-heartbeat name x s h =
      let n = normalize_key_name k p name in
      let (i, e) =
        mem-map (λ i. p.sha256 (key_data k p (codes "storage") n i)) (indices 0 m_redundancy) s in
      let (j, f) =
        mem-map (λ i. p.sha256 (key_data k p (codes "heartbeat") n i)) (indices 0 m_redundancy) h in
      (
        refl,
        refl,
        record {
          left = key_data k p (codes "storage") n i;
          right = key_data k p (codes "heartbeat") n j;
          differ = key_data_domain n i j;
          same_hash = sym e ∙ f;
        },
      )
