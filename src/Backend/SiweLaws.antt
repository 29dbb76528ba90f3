-- ===== src/Backend/SiweLaws.antt =====
-- A proof that a sign-in message works once.
use big_x.Base.{
  String, Bool, true, false, ◌≡◌, ◌≢◌, refl, ap, ◌⊎◌, inl, inr, Option, none, some, List, [], ◌∷◌,
  arith, All, Bool-cases,
}
use big_x.Base.Exec.{Result, ok, err}
use big_x.Resilience.Cache.{lookup, remove}
use big_x.Resilience.CacheLaws.{lookup-insert, lookup-remove}
use big_x.Backend.Siwe.{
  SiweEnv, SiweLoginRequest, SiweError, invalid_nonce, missing_nonce, Nonces, store_nonce,
  is_refused, verify_and_consume_nonce, with_consumed, with_signer, siwe_nonce, verify_siwe,
}
use package.text.Mathlib.Text.{◌==◌}
use package.text.Mathlib.TextEquality.{eq_iff}

-- What happens to the nonces: one is issued to an address, or someone tries to sign in.
pub data Event : Type 0 where
  issued : String → String → Event
  login : SiweLoginRequest → Event

-- The nonce is not the stored one of the address.
abbrev IsGone : String → String → Nonces → Type 0
IsGone key nonce nonces = lookup key nonces ≢ some nonce

module _ (env : SiweEnv) where
  abbrev pub apply : Event → Nonces → Nonces
  apply (issued address nonce) s = store_nonce env address nonce s
  apply (login l) s = (verify_siwe env l s).1

  unfoldable pub apply_all : List Event → Nonces → Nonces
  apply_all [] s = s
  apply_all (e ∷ es) s = apply_all es (apply e s)

  -- The event does not issue the nonce to the address again.
  abbrev pub IsOther : String → String → Event → Type 0
  IsOther address nonce (issued a n) = (env.lower a ≢ env.lower address) ⊎ (n ≢ nonce)
  IsOther address nonce (login l) = Unit

  module _ (key nonce : String) where
    IsGone-remove : (k : String) (s : Nonces) → IsGone key nonce s → IsGone key nonce (remove k s)
    IsGone-remove k s h = ground (arith, lookup-remove k key s, h)

    IsGone-consume :
        (address n : String) (s : Nonces)
        → IsGone key nonce s
        → IsGone key nonce (verify_and_consume_nonce env address n s).1
    unfolding verify_and_consume_nonce
    IsGone-consume address n s h =
        elim (Bool-cases (is_refused env (lookup (env.lower address) s) n)) [
          | inl refused ↦ rw (refused, verify_and_consume_nonce) h
          | inr good ↦ rw (good, verify_and_consume_nonce) (IsGone-remove (env.lower address) s h)
        ]

    with_consumed-nonces : (a n : String) (r : Bool × Nonces) → (with_consumed env a n r).1 ≡ r.1
    with_consumed-nonces a n (true, s) = refl
    with_consumed-nonces a n (false, s) = refl

    IsGone-with_signer :
        (o : Option String) (n : String) (s : Nonces)
        → IsGone key nonce s
        → IsGone key nonce (with_signer env o n s).1
    IsGone-with_signer none n s h = h
    IsGone-with_signer (some address) n s h = elim (Bool-cases (n == "")) [
      | inl blank ↦ rw (blank, with_signer) h
      | inr given ↦
          rw
            (
              given,
              with_signer,
              with_consumed-nonces address n (verify_and_consume_nonce env address n s),
            )
            (IsGone-consume address n s h)
    ]

  IsGone-apply :
      (address nonce : String) (e : Event) (s : Nonces)
      → IsOther address nonce e
      → IsGone (env.lower address) nonce s
      → IsGone (env.lower address) nonce (apply e s)
  unfolding store_nonce verify_siwe
  IsGone-apply address nonce (login l) s o h =
      IsGone-with_signer (env.lower address) nonce (env.recover l.message l.signature) _ s h
  IsGone-apply address nonce (issued a n) s (inl other) h = ground (
    arith,
    lookup-insert (env.lower a) (env.lower address) n s,
    eq_iff (env.lower a) (env.lower address),
    h,
    other,
  )
  IsGone-apply address nonce (issued a n) s (inr other) h =
      ground (arith, lookup-insert (env.lower a) (env.lower address) n s, h, other)

  IsGone-apply_all :
      (address nonce : String) (es : List Event) (s : Nonces)
      → All (IsOther address nonce) es
      → IsGone (env.lower address) nonce s
      → IsGone (env.lower address) nonce (apply_all es s)
  unfolding apply_all
  IsGone-apply_all address nonce [] s o h = h
  IsGone-apply_all address nonce (e ∷ es) s o h =
      IsGone-apply_all address nonce es (apply e s) o.1 (IsGone-apply address nonce e s o.0 h)

  removed_own : (key nonce : String) (s : Nonces) → IsGone key nonce (remove key s)
  removed_own key nonce s = ground (arith, lookup-remove key key s, eq_iff key key)

  -- What a sign-in that succeeded was: signed by the address, with a nonce, which is then removed.
  record Used (o : Option String) (n address nonce : String) (s : Nonces) : Type 0 where
    signed : o ≡ some address
    given : n ≡ nonce
    filled : (n == "") ≡ false
    consumed : (with_signer env o n s).1 ≡ remove (env.lower address) s

  ok-Used :
      (o : Option String) (n address nonce : String) (s : Nonces)
      → (with_signer env o n s).0 ≡ ok (address, nonce)
      → Used o n address nonce s
  unfolding verify_and_consume_nonce
  ok-Used none n address nonce s h = cc
  ok-Used (some a) n address nonce s h = elim (Bool-cases (n == "")) [
    | inl blank ↦
        let bad : ◌≡◌ {A = Result SiweError (String × String)} (err missing_nonce)
            (ok (address, nonce)) =
          rw (blank, with_signer) at h in
        cc
    | inr filled ↦ elim (Bool-cases (is_refused env (lookup (env.lower a) s) n)) [
      | inl refused ↦
          let bad : ◌≡◌ {A = Result SiweError (String × String)} (err invalid_nonce)
              (ok (address, nonce)) =
            rw (filled, with_signer, verify_and_consume_nonce, refused, with_consumed) at h in
          cc
      | inr good ↦
          let won : ◌≡◌ {A = Result SiweError (String × String)} (ok (a, n)) (ok (address, nonce)) =
            rw (filled, with_signer, verify_and_consume_nonce, good, with_consumed) at h in
          let pair : (a, n) ≡ (address, nonce) = cc in
          record {
            signed = ap (λ (p : String × String). some p.0) pair;
            given = ap (λ (p : String × String). p.1) pair;
            filled = filled;
            consumed =
                rw (filled, with_signer, verify_and_consume_nonce, good, with_consumed)
                  (ap (λ (p : String × String). remove (env.lower p.0) s) pair);
          }
    ]
  ]

  refused-IsGone :
      (o : Option String) (nonce : String) → o ≢ some nonce → is_refused env o nonce ≡ true
  refused-IsGone none nonce h = refl
  refused-IsGone (some stored) nonce h = elim (Bool-cases (stored == nonce)) [
    | inl same ↦ absurd (h (ap some ((eq_iff stored nonce).0 same)))
    | inr other ↦ rw (other, is_refused) (ground arith)
  ]

  again_refused :
      (o : Option String) (n address nonce : String) (s t : Nonces)
      → Used o n address nonce s
      → IsGone (env.lower address) nonce t
      → (with_signer env o n t).0 ≡ err invalid_nonce
  unfolding verify_and_consume_nonce
  again_refused o n address nonce s t u gone =
      let filled : (nonce == "") ≡ false = rw u.given at u.filled in
      rw
        (
          u.signed,
          u.given,
          with_signer,
          filled,
          verify_and_consume_nonce,
          refused-IsGone (lookup (env.lower address) t) nonce gone,
          with_consumed,
        )
        refl

  -- After a sign-in that succeeded, the same message and signature are refused for their nonce, whatever
  -- nonces were issued and whoever tried to sign in meanwhile, as long as that nonce was not issued to
  -- that address again.
  pub verify_siwe_once :
      (l : SiweLoginRequest) (address nonce : String) (s : Nonces) (es : List Event)
      → (verify_siwe env l s).0 ≡ ok (address, nonce)
      → All (IsOther address nonce) es
      → (verify_siwe env l (apply_all es (verify_siwe env l s).1)).0 ≡ err invalid_nonce
  unfolding verify_siwe
  verify_siwe_once l address nonce s es h others =
      let u =
        ok-Used (env.recover l.message l.signature) (siwe_nonce env (env.lines l.message)) address
          nonce s h in
      again_refused _ _ address nonce s _ u (
        IsGone-apply_all address nonce es _ others
          (rw u.consumed (removed_own (env.lower address) nonce s)))
