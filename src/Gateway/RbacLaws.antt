-- ===== src/Gateway/RbacLaws.antt =====
-- Proofs about the checks of roles.
use big_x.Base.{
  ◌≡◌, refl, ap, sym, ◌∙◌, arith, String, Bool, true, false, ◌&&◌, none, some, List, [], ◌∷◌,
  if◌then◌else◌, All, Bool-cases, inl, inr,
}
use big_x.Gateway.Rbac.{
  Endpoint, endpoints, permission_of, rbac_middleware, called_next, denied, has_permission, user,
}
use package.text.Mathlib.Text.{◌==◌}
use package.text.Mathlib.TextEquality.{eq_iff}

-- Plain users may read, and nothing else.
abbrev ReadsOnly : Endpoint → Type 0
ReadsOnly e = has_permission user e.permission ≡ (e.method == "GET")

table-ReadsOnly : All ReadsOnly endpoints
table-ReadsOnly = (refl, (refl, (refl, (refl, (refl, (refl, (refl, (refl, tt))))))))

left_true : (b c : Bool) → b && c ≡ true → b ≡ true
left_true b c e = ground arith

permission_of-ReadsOnly :
    (es : List Endpoint) (m p perm : String)
    → All ReadsOnly es
    → permission_of es m p ≡ some perm
    → has_permission user perm ≡ (m == "GET")
unfolding permission_of
permission_of-ReadsOnly [] m p perm h e = cc
permission_of-ReadsOnly (x ∷ es) m p perm h e = elim (Bool-cases (x.method == m && x.path == p)) [
  | inl here ↦
      let q : some x.permission ≡ some perm = rw here at e in
      let same_perm : x.permission ≡ perm = cc in
      let same_method : x.method ≡ m =
        (eq_iff x.method m).0 (left_true (x.method == m) (x.path == p) here) in
      ap (has_permission user) (sym same_perm) ∙ h.0 ∙ ap (λ z. z == "GET") same_method
  | inr there ↦ permission_of-ReadsOnly es m p perm h.1 (rw there at e)
]

-- A request without the role header passes to a listed endpoint exactly if it is a GET.
pub rbac_middleware_plain :
    (method path perm : String)
    → method == "OPTIONS" ≡ false
    → permission_of endpoints method path ≡ some perm
    → rbac_middleware method path none ≡ (if method == "GET" then called_next else denied)
unfolding rbac_middleware
rbac_middleware_plain method path perm other listed =
    rw (other, listed, permission_of-ReadsOnly endpoints method path perm table-ReadsOnly listed)
      refl

-- The role is what the request's own header says: with the header "admin" every request passes.
pub rbac_middleware_admin :
    (method path : String) → rbac_middleware method path (some "admin") ≡ called_next
unfolding rbac_middleware
rbac_middleware_admin method path = ground arith
