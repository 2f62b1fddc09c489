-- ===== src/Security/Profile/Steps.antt =====
-- Calls made one after the other, until one fails.
use iso26430_6_asm_prototype.Base.{
  ◌≡◌, refl, String, List, [], ◌∷◌, ◌++◌, append_assoc, append-nil, true, false, ◌&&◌, ok, err,
  ◌==◌, arith, Bool-cases, Result-cases, inl, inr, ◌⊎◌,
}
use iso26430_6_asm_prototype.Security.Profile.{Call, Returns, tell, expect}
use iso26430_6_asm_prototype.Service.Actions.{Action, resume}
use iso26430_6_asm_prototype.Security.Profile.Settings.{is_checked, all_succeed}

module _ (returns : Returns) where
  all_succeed-append :
      (xs ys calls : List Call)
      → all_succeed returns calls (xs ++ ys)
        ≡ (all_succeed returns calls xs && all_succeed returns (calls ++ xs) ys)
  unfolding all_succeed
  all_succeed-append [] ys calls = rw (append-nil calls) refl
  all_succeed-append (x ∷ xs) ys calls =
      rw (all_succeed-append xs ys (calls ++ x ∷ []), append_assoc calls (x ∷ []) xs) (ground arith)

  -- An action makes these calls, or throws because one of them failed.
  unfoldable pub Does : Action (List Call) (Unit {0}) → List Call → Type 0
  Does m steps =
      (calls : List Call)
      → ((all_succeed returns calls steps ≡ true) × (m calls ≡ (ok tt, calls ++ steps)))
        ⊎ ((all_succeed returns calls steps ≡ false) × (what : String) × ((m calls).0 ≡ err what))

  pub tell-Does : (c : Call) → is_checked c ≡ false → Does (tell c) (c ∷ [])
  unfolding Does all_succeed
  tell-Does c h calls = inl (ground (arith, h), refl)

  pub expect-Does :
      (c : Call) (message : String) → is_checked c ≡ true → Does (expect returns c message) (c ∷ [])
  unfolding Does all_succeed expect
  expect-Does c message h calls = elim (Bool-cases (returns calls c == 1)) [
    | inl one ↦ inl (ground (arith, h, one), rw one refl)
    | inr other ↦ inr (ground (arith, h, other), message, rw other refl)
  ]

  pub bind-Does :
      (m k : Action (List Call) (Unit {0})) (xs ys : List Call)
      → Does m xs
      → Does k ys
      → Does (λ calls. resume (m calls).0 (λ done. k) (m calls).1) (xs ++ ys)
  unfolding Does
  bind-Does m k xs ys hm hk calls = elim (hm calls) [
    | inl (all, same) ↦ elim (hk (calls ++ xs)) [
      | inl (all', same') ↦ inl (
        rw (all_succeed-append xs ys calls, all, all') refl,
        rw (same, same', append_assoc calls xs ys) refl,
      )
      | inr (some_failed, what, thrown) ↦
          inr (rw (all_succeed-append xs ys calls, all, some_failed) refl, what, rw same thrown)
    ]
    | inr (some_failed, what, thrown) ↦
        inr (rw (all_succeed-append xs ys calls, some_failed) refl, what, rw thrown refl)
  ]

-- An action that throws, whatever was called before.
unfoldable pub Throws : Action (List Call) (Unit {0}) → Type 0
Throws m = (calls : List Call) → (what : String) × ((m calls).0 ≡ err what)

pub first-Throws :
    (m k : Action (List Call) (Unit {0}))
    → Throws m
    → Throws (λ calls. resume (m calls).0 (λ done. k) (m calls).1)
unfolding Throws
first-Throws m k h calls = let (what, thrown) = h calls in (what, rw thrown refl)

pub then-Throws :
    (m k : Action (List Call) (Unit {0}))
    → Throws k
    → Throws (λ calls. resume (m calls).0 (λ done. k) (m calls).1)
unfolding Throws
then-Throws m k h calls = elim (Result-cases (m calls).0) [
  | inl (done, e) ↦ rw e (h (m calls).1)
  | inr (what, e) ↦ (what, rw e refl)
]
