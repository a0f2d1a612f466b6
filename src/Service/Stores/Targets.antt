-- ===== src/Service/Stores/Targets.antt =====
-- The app of a user behind a target.
use shinyproxy_rust.Base.{
  String, str_eq, str_eq_iff, ◌≡◌, refl, ◌∙◌, ◌⊎◌, inl, inr, Bool, true, ◌&&◌, none, some, List, [],
  ◌∷◌, arith, Bool-cases, keep_if,
}
use shinyproxy_rust.Base.Dict.{values}
use shinyproxy_rust.Model.Proxies.{Proxy, target_id_of}
use shinyproxy_rust.Service.Stores.{
  MemoryProxyStore, owns, all_proxies, first_that, find_user_proxy_by_target, user_proxies,
}

-- The proxy stands in the list.
unfoldable pub IsAmong : Proxy → List Proxy → Type 0
IsAmong p [] = ⊥
IsAmong p (q ∷ qs) = (q ≡ p) ⊎ IsAmong p qs

first_that_lem :
    (test : Proxy → Bool) (ps : List Proxy)
    → ((first_that test ps ≡ none) × (keep_if test ps ≡ []))
      ⊎ ((p : Proxy) × (rest : List Proxy) × (first_that test ps ≡ some p)
          × (keep_if test ps ≡ p ∷ rest)
          × (test p ≡ true)
          × IsAmong p ps)
unfolding first_that keep_if IsAmong
first_that_lem test [] = inl (refl, refl)
first_that_lem test (p ∷ ps) = elim (Bool-cases (test p)) [
  | inl hit ↦ inr (p, keep_if test ps, rw hit refl, rw hit refl, hit, inl refl)
  | inr miss ↦ elim (first_that_lem test ps) [
    | inl (e, empty) ↦ inl (rw miss e, rw miss empty)
    | inr (q, rest, e, kept, passes, among) ↦
        inr (q, rest, rw miss e, rw miss kept, passes, inr among)
  ]
]

keep_if-keep_if :
    (f g : Proxy → Bool) (ps : List Proxy) → keep_if f (keep_if g ps) ≡ keep_if (λ p. f p && g p) ps
unfolding keep_if
keep_if-keep_if f g [] = refl
keep_if-keep_if f g (p ∷ ps) = ground (arith, keep_if-keep_if f g ps)

-- The app of a user behind a target is the first of the user's apps with that target, one that the
-- store holds and the user owns; there is none exactly when no app of the user has the target.
pub find_user_proxy_by_target_lem :
    (s : MemoryProxyStore) (user_id target_id : String)
    → let apps = keep_if (λ p. str_eq (target_id_of p) target_id) (user_proxies s user_id) in
      ((find_user_proxy_by_target s user_id target_id ≡ none) × (apps ≡ []))
      ⊎ ((p : Proxy) × (rest : List Proxy) × (find_user_proxy_by_target s user_id target_id
            ≡ some p)
          × (apps ≡ p ∷ rest)
          × (target_id_of p ≡ target_id)
          × (owns s p user_id ≡ true)
          × IsAmong p (all_proxies s))
unfolding find_user_proxy_by_target user_proxies all_proxies
find_user_proxy_by_target_lem s user_id target_id =
    let test = λ (p : Proxy). str_eq (target_id_of p) target_id && owns s p user_id in
    let both =
      keep_if-keep_if (λ p. str_eq (target_id_of p) target_id) (λ p. owns s p user_id)
        (values s.proxies) in
    elim (first_that_lem test (values s.proxies)) [
      | inl (e, empty) ↦ inl (e, both ∙ empty)
      | inr (p, rest, e, kept, passes, among) ↦ inr (
        p,
        rest,
        e,
        both ∙ kept,
        (str_eq_iff (target_id_of p) target_id).0 (ground (arith, passes)),
        ground (arith, passes),
        among,
      )
    ]
