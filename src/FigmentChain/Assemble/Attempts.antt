-- ===== src/FigmentChain/Assemble/Attempts.antt =====
-- What a governed call and a sequence of tasks come to, if they succeed.
use demo_s3_archiving.Prelude.{ℕ, ◌≡◌, refl, sym, ap, ◌∙◌, subst, inl, inr}
use demo_s3_archiving.Prelude.{◌&&◌, Bool-cases}
use demo_s3_archiving.FigmentChain.RateLimit.{Priority}
use demo_s3_archiving.FigmentChain.Assemble.{
  Result, ok, is_retryable, is_throttle, Machine, emit, attempt_once, attempt_governed,
  with_retry_governed,
}
use demo_s3_archiving.FigmentChain.Assemble.Service.{Client}
use demo_s3_archiving.FigmentChain.Assemble.Build.{Task, ◌>>=◌, lift}
use demo_s3_archiving.FigmentChain.Assemble.Retry.{
  Tries, first, next, again, Result-cases, with_retry_governed-attempts,
}

module _ {World A : Type 0} (op : World → Result A × World) (prio : Priority) where
  attempt_governed-op :
      (s : Machine World)
      → ((attempt_governed prio op s).0 ≡ (op s.world).0)
        × ((attempt_governed prio op s).1.world ≡ (op s.world).1)
  unfolding attempt_governed attempt_once emit
  attempt_governed-op s = elim (Result-cases (op s.world).0) [
    | inl (v, e) ↦ rw (attempt_governed, e) (refl, refl)
    | inr (x, e) ↦ elim (Bool-cases (is_retryable x && is_throttle x)) [
      | inl b ↦ rw (attempt_governed, e, b) (refl, refl)
      | inr b ↦ rw (attempt_governed, e, b) (refl, refl)
    ]
  ]

  module _ (P : World → Type 0) (keeps : (w : World) → P w → P (op w).1) where
    Tries-keeps :
        {left end n : ℕ} {s t : Machine World}
        → Tries (attempt_governed prio op) (again op prio) left end n s t
        → P s.world
        → P t.world
    unfolding emit
    Tries-keeps first p = p
    Tries-keeps (next {left} {end} {n} {s} e r k tries) p =
        Tries-keeps tries (subst P (sym (attempt_governed-op s).1) (keeps s.world p))

    -- Where each attempt keeps what holds at first, the last one is made where it holds.
    pub with_retry_governed-last :
        (s : Machine World)
        → P s.world
        → (w : World) × P w
          × ((with_retry_governed prio op s).0 ≡ (op w).0)
          × ((with_retry_governed prio op s).1.world ≡ (op w).1)
    with_retry_governed-last s p =
        let (end, n, t, sum, tries, same, over, a1, a2, a3) =
          with_retry_governed-attempts op prio s in
        let (a, b) = attempt_governed-op t in
        (
          t.world,
          Tries-keeps tries p,
          ap (λ r. r.0) same ∙ a,
          ap (λ (r : Result A × Machine World). r.1.world) same ∙ b,
        )

module _ (client : Client) where
  -- A sequence that succeeds has parts that do.
  pub >>=-ok :
      {A B : Type 0} (m : Task client A) (f : A → Task client B) (s s' : Machine client.World)
      (b : B)
      → (◌>>=◌ client m f) s ≡ (ok b, s')
      → (a : A) × (t : Machine client.World) × (m s ≡ (ok a, t)) × (f a t ≡ (ok b, s'))
  unfolding ◌>>=◌
  >>=-ok m f s s' b h = elim (Result-cases (m s).0) [
    | inl (a, e) ↦ (a, (m s).1, ap (λ r. (r, (m s).1)) e, rw (◌>>=◌, e) at h)
    | inr (x, e) ↦ absurd (cc (rw (◌>>=◌, e) at h))
  ]

  pub lift-ok :
      {A : Type 0} (r : Result A) (s s' : Machine client.World) (a : A)
      → lift client r s ≡ (ok a, s')
      → (r ≡ ok a) × (s ≡ s')
  unfolding lift
  lift-ok r s s' a h = (ap (λ p. p.0) h, ap (λ p. p.1) h)

  -- A value at hand is bound at once.
  pub lift->>= :
      {A B : Type 0} (r : Result A) (f : A → Task client B) (s s' : Machine client.World) (a : A)
      (b : B)
      → r ≡ ok a
      → (◌>>=◌ client (lift client r) f) s ≡ (ok b, s')
      → f a s ≡ (ok b, s')
  unfolding ◌>>=◌ lift
  lift->>= r f s s' a b e h = rw e at h
