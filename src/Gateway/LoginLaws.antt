-- ===== src/Gateway/LoginLaws.antt =====
-- Proofs about signing in.
use Prim.Native.String.append
use Prim.Native.String.slice
use Prim.Native.Nat.{◌-◌, compare as compare_ℕ}
use Prim.Native.Char.{Char, char, len_utf8}
use Prim.Native.String.{[], ◌∷◌, ◌++◌, slice, fits}
use big_x.Base.{
  ◌≡◌, ◌≢◌, refl, sym, ap, ◌∙◌, subst, arith, ◌⊎◌, List, String, true, false, none, some,
  Bool-cases, Option-cases, inl, inr, if◌then◌else◌,
}
use big_x.Base.Exec.{ok, err, ◌>>◌}
use big_x.Resilience.Cache.{lookup, insert}
use big_x.Resilience.CacheLaws.{lookup-insert}
use big_x.Gateway.Login.{
  State, http, Env, SessionUser, get_nonce_v1, login_siwe_v1, is_expected, nonce_in, after_colon,
}
use package.text.Mathlib.Text.{◌==◌, starts_with}
use package.text.Mathlib.TextLemmas.{append_assoc}
use package.text.Mathlib.TextPositions.{slice-zero-zero}
use package.text.Mathlib.TextEquality.{eq_iff, starts_with_iff}

unsigned :
    (env : Env) (message signature : String)
    → env.recover_message message signature ≡ none
    → (new_id : String) (u : SessionUser) (s s' : State)
    → login_siwe_v1 env new_id message signature s ≡ (ok u, s')
    → ⊥
unfolding login_siwe_v1
unsigned env message signature bad new_id u s s' e = ground arith

module _ (env : Env) (message signature w : String)
    (signed : env.recover_message message signature ≡ some w) where
  -- What a sign-in that succeeds has found and left.
  wallet_of :
      (new_id : String) (u : SessionUser) (s s' : State)
      → login_siwe_v1 env new_id message signature s ≡ (ok u, s')
      → (u.wallet_address ≡ env.lower w)
        × (is_expected env (env.lower w) (nonce_in env (env.lines message)) s ≡ true)
        × (s'.nonces ≡ s.nonces)
        × (lookup (env.lower w) s'.users ≡ some (record { id = u.user_id; role = u.role }))
  unfolding login_siwe_v1
  wallet_of new_id u s s' e =
      elim (Bool-cases (is_expected env (env.lower w) (nonce_in env (env.lines message)) s)) [
        | inr wrong ↦ absurd (ground arith)
        | inl right ↦ elim (Option-cases (lookup (env.lower w) s.users)) [
          | inl new ↦ ground (
            arith,
            lookup-insert (env.lower w) (env.lower w) (record { id = new_id; role = "user" })
                s.users,
            eq_iff (env.lower w) (env.lower w),
          )
          | inr (x, old) ↦ ground arith
        ]
      ]

  again :
      (other_id : String) (u : SessionUser) (s : State)
      → u.wallet_address ≡ env.lower w
      → is_expected env (env.lower w) (nonce_in env (env.lines message)) s ≡ true
      → lookup (env.lower w) s.users ≡ some (record { id = u.user_id; role = u.role })
      → login_siwe_v1 env other_id message signature s ≡ (ok u, s)
  unfolding login_siwe_v1
  again other_id u s same right found = ground arith

-- The first line that starts with "Nonce:" is followed by a text that is `nonce` once it is stripped.
abbrev pub FirstNonce : Env → String → List String → Type 0
FirstNonce env nonce List.[] = ⊥
FirstNonce env nonce (List.◌∷◌ line rest) =
    ((t : String) × ("Nonce:" ++ t ≡ line) × (nonce ≡ env.strip t))
    ⊎ ((starts_with line "Nonce:" ≡ false) × FirstNonce env nonce rest)

abbrev colon : Char
colon = char 58 tt

-- What the test for a colon sees of a text whose first character takes one byte.
is_colon : (c : Char) (t : String) → len_utf8 c ≡ 1 → starts_with (c ∷ t) ":" ≡ (c ∷ "" == ":")
is_colon c t one =
    ap (λ v. v == ":")
      (slice.cons-zero c t 1
        ∙ ap (λ n. fits (compare_ℕ n 1) c (slice t 0 (1 - n))) one
        ∙ ap (λ r. c ∷ r) (slice-zero-zero t))

-- Every character takes one byte, and none is a colon.
abbrev HasNoColon : String → Type 0
HasNoColon [] = Unit
HasNoColon (c ∷ p) = (len_utf8 c ≡ 1) × ((c ∷ "" == ":") ≡ false) × HasNoColon p

after_colon-append : (p t : String) → HasNoColon p → after_colon (p ++ (":" ++ t)) ≡ t
after_colon-append [] t h =
    ap after_colon
      (append.nil (":" ++ t) ∙ append.cons colon [] t ∙ ap (λ r. colon ∷ r) (append.nil t))
    ∙ ap (λ b. if b then t else after_colon t) (is_colon colon t refl)
after_colon-append (c ∷ p) t (one, plain, others) =
    let rest = p ++ (":" ++ t) in
    ap after_colon (append.cons c p (":" ++ t))
    ∙ ap (λ b. if b then rest else after_colon rest) (is_colon c rest one ∙ plain)
    ∙ after_colon-append p t others

after_colon-Nonce : (t : String) → after_colon ("Nonce:" ++ t) ≡ t
after_colon-Nonce t =
    ap after_colon (append_assoc "Nonce" ":" t)
    ∙ after_colon-append "Nonce" t
        (refl, refl, (refl, refl, (refl, refl, (refl, refl, (refl, refl, tt)))))

nonce_in-FirstNonce :
    (env : Env) (ls : List String) → nonce_in env ls ≢ "" → FirstNonce env (nonce_in env ls) ls
nonce_in-FirstNonce env List.[] h = absurd (h refl)
nonce_in-FirstNonce env (List.◌∷◌ l ls) h = elim (Bool-cases (starts_with l "Nonce:")) [
  | inl here ↦
      let (t, is_line) = (starts_with_iff l "Nonce:").0 here in
      inl (
        t,
        is_line,
        ap (λ b. if b then env.strip (after_colon l) else nonce_in env ls) here
            ∙ ap env.strip (ap after_colon (sym is_line) ∙ after_colon-Nonce t),
      )
  | inr not_here ↦ inr (
    not_here,
    subst (λ n. FirstNonce env n ls)
        (ap (λ b. if b then env.strip (after_colon l) else nonce_in env ls) (sym not_here))
        (nonce_in-FirstNonce env ls (λ empty.
          h (ap (λ b. if b then env.strip (after_colon l) else nonce_in env ls) not_here ∙ empty))),
  )
]

is_expected-held :
    (env : Env) (wallet nonce : String) (s : State)
    → is_expected env wallet nonce s ≡ true
    → (nonce ≢ "") × (lookup wallet s.nonces ≡ some nonce)
is_expected-held env wallet nonce s right = elim (Option-cases (lookup wallet s.nonces)) [
  | inl missing ↦ absurd (ground arith)
  | inr (n, held) ↦ (
    λ empty. absurd (ground (arith, eq_iff nonce "")),
    ground (arith, eq_iff n nonce, eq_iff nonce ""),
  )
]

-- A sign-in succeeds only if the message was signed by the wallet of the token, and the first line of
-- the message that starts with "Nonce:" continues with a text that, stripped, is not empty and is the
-- nonce held for that wallet.
pub login_siwe_v1-Signed :
    (env : Env) (new_id message signature : String) (u : SessionUser) (s s' : State)
    → login_siwe_v1 env new_id message signature s ≡ (ok u, s')
    → (w : String) × (nonce : String) × (env.recover_message message signature ≡ some w)
      × (u.wallet_address ≡ env.lower w)
      × (nonce ≢ "")
      × FirstNonce env nonce (env.lines message)
      × (lookup (env.lower w) s.nonces ≡ some nonce)
login_siwe_v1-Signed env new_id message signature u s s' e =
    elim (Option-cases (env.recover_message message signature)) [
      | inl bad ↦ absurd (unsigned env message signature bad new_id u s s' e)
      | inr (w, signed) ↦
          let (same, right, kept, found) =
            wallet_of env message signature w signed new_id u s s' e in
          let nonce = nonce_in env (env.lines message) in
          let (named, held) = is_expected-held env (env.lower w) nonce s right in
          (w, nonce, signed, same, named, nonce_in-FirstNonce env (env.lines message) named, held)
    ]

-- The nonce is not used up: the same message signs in again, as the same user.
pub login_siwe_v1_again :
    (env : Env) (new_id other_id message signature : String) (u : SessionUser) (s s' : State)
    → login_siwe_v1 env new_id message signature s ≡ (ok u, s')
    → login_siwe_v1 env other_id message signature s' ≡ (ok u, s')
login_siwe_v1_again env new_id other_id message signature u s s' e =
    elim (Option-cases (env.recover_message message signature)) [
      | inl bad ↦ absurd (unsigned env message signature bad new_id u s s' e)
      | inr (w, signed) ↦
          let (same, right, kept, found) =
            wallet_of env message signature w signed new_id u s s' e in
          again env message signature w signed other_id u s' same (rw kept right) found
    ]

-- Only the latest nonce of all wallets is held: if another wallet asks for a nonce in between, the
-- first wallet's sign-in is refused, whatever it signs.
pub get_nonce_v1_forgets :
    (env : Env) (fresh later new_id address other message signature w : String) (s : State)
    → env.lower address == "" ≡ false
    → env.lower other == "" ≡ false
    → env.lower other == env.lower address ≡ false
    → env.recover_message message signature ≡ some w
    → env.lower w ≡ env.lower address
    → ((get_nonce_v1 env fresh address
          >> get_nonce_v1 env later other
          >> login_siwe_v1 env new_id message signature)
        s).0
      ≡ err (http 401 "Invalid or expired nonce")
unfolding login_siwe_v1 get_nonce_v1 lookup insert
get_nonce_v1_forgets env fresh later new_id address other message signature w s p q r signed same =
    ground (arith)
