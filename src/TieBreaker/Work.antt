-- ===== src/TieBreaker/Work.antt =====
-- The work behind a chosen reveal (kinetic-network/src/event_loop/utils.rs).
use kinetic.Prelude.{ℕ, ◌≤◌, ◌≡◌, ◌⊎◌, inl, inr, true, some, arith, Bool-cases}
use kinetic.Prelude.Bytes.{Bytes}
use kinetic.Vdf.{Reveal}
use kinetic.TieBreaker.{TieEnv}
use kinetic.Config.{accepted}
use kinetic.Store.Reveals.{is_accepted-accepted}
use kinetic.Store.RevealCheck.{Required, required, rejected, compute_required_iterations}
use kinetic.TieBreaker.{tie_data, tie_proves, tie_surroundings}

module _ (e : TieEnv) (current_kyn : ℕ) where
  -- the required iterations are met and the engine accepts the VDF for the text of the tie-breaker,
  -- or the network is in development mode and a number of iterations is required
  pub record IsWorked (reveal : Reveal) : Type 0 where
    pub drand_sig_bytes : Bytes
    pub decoded : e.p.hex_decode reveal.beacon_signature ≡ some drand_sig_bytes
    pub least_iterations : ℕ
    pub computed :
        compute_required_iterations e.k e.p (tie_surroundings e) reveal current_kyn
        ≡ required least_iterations
    pub worked :
        (e.k.dev_mode ≡ true)
        ⊎ ((least_iterations ≤ reveal.iterations)
            × (e.p.vdf_verify
                  (e.p.sha256 (tie_data e reveal drand_sig_bytes))
                  reveal.vdf_proof
                  reveal.iterations
                ≡ accepted))

  pub tie_proves_sound :
      (reveal : Reveal) (sig : Bytes) (o : Required)
      → e.p.hex_decode reveal.beacon_signature ≡ some sig
      → compute_required_iterations e.k e.p (tie_surroundings e) reveal current_kyn ≡ o
      → tie_proves e reveal sig o ≡ true
      → IsWorked reveal
  unfolding tie_proves
  tie_proves_sound reveal sig (rejected x) d c h = absurd (ground (arith, h))
  tie_proves_sound reveal sig (required n) d c h = record {
    drand_sig_bytes = sig;
    decoded = d;
    least_iterations = n;
    computed = c;
    worked = elim (Bool-cases e.k.dev_mode) [
      | inl dev ↦ inl dev
      | inr live ↦ inr (ground (arith, h, live), is_accepted-accepted _ (ground (arith, h, live)))
    ];
  }
