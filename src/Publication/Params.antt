-- ===== src/Publication/Params.antt =====
-- Which parameters of a publication are accepted (postgresql/resource_postgresql_publication.go:
-- validatedPublicationPublishParams, getPublicationParameters).
use yb_terraform_provider_po.Prelude.{
  String, Bool, true, false, List, [], ◌∷◌, ◌++◌, All, ◌≡◌, ◌↔◌, refl, sym, ap, ◌∙◌, Bool-cases,
  Option-cases, inl, inr, if◌then◌else◌, ◌<>◌,
}
use yb_terraform_provider_po.Prelude.Result.{Result, ok, Result-cases}
use mathlib.Core.List.{append_assoc, append-nil}
use yb_terraform_provider_po.Strings.{join}
use yb_terraform_provider_po.Slices.{slice_contains_str, is_unique_arr}
use yb_terraform_provider_po.Slices.Laws.{IsUnique, is_unique_arr_iff}
use yb_terraform_provider_po.Terraform.{ResourceData}
use yb_terraform_provider_po.Publication.{
  publish_values, check_publish_params, validated_publication_publish_params, via_root_param,
  publish_param, is_given, params_text, publication_params, get_publication_parameters,
}

-- one of insert, update, delete and truncate
abbrev pub IsOperation : String → Type 0
IsOperation s = slice_contains_str publish_values s ≡ true

abbrev pub Succeeds : {A : Type 0} → Result A → Type 0
Succeeds {A} r = (a : A) × (r ≡ ok a)

check_publish_params-eq :
    (params attrs : List String)
    → All IsOperation params
    → check_publish_params params attrs ≡ ok (attrs ++ params)
unfolding check_publish_params
check_publish_params-eq [] attrs h = ap ok (sym (append-nil attrs))
check_publish_params-eq (p ∷ params) attrs (h, hs) = rw h (
    check_publish_params-eq params (attrs ++ p ∷ []) hs
    ∙ ap ok (append_assoc attrs (p ∷ []) params))

check_publish_params-All :
    (params attrs : List String)
    → Succeeds (check_publish_params params attrs)
    → All IsOperation params
unfolding check_publish_params
check_publish_params-All [] attrs h = tt
check_publish_params-All (p ∷ params) attrs (r, h) =
    elim (Bool-cases (slice_contains_str publish_values p)) [
      | inl e ↦ (e, check_publish_params-All params (attrs ++ p ∷ []) (r, rw e at h))
      | inr e ↦ absurd (let h' = rw e at h in cc)
    ]

-- The publish parameters are accepted exactly when none stands twice and each is one of the four
-- operations, and then they are returned as they are.
validated-eq :
    (params : List String)
    → Succeeds (validated_publication_publish_params params)
      ↔ (IsUnique params × All IsOperation params)
unfolding validated_publication_publish_params
validated-eq params = (
  λ (r, h). elim (Option-cases (is_unique_arr params)) [
    | inl u ↦ (
      (is_unique_arr_iff params).0 u,
      check_publish_params-All params [] (r, rw (u, validated_publication_publish_params) at h),
    )
    | inr (elem, u) ↦ absurd (let h' = rw (u, validated_publication_publish_params) at h in cc)
  ],
  λ (u, all). (
    params,
    rw ((is_unique_arr_iff params).1 u, validated_publication_publish_params)
        (check_publish_params-eq params [] all),
  ),
)

via_root_param_iff :
    (given enabled value : Bool)
    → Succeeds (via_root_param given enabled value) ↔ (given ≡ true → enabled ≡ true)
unfolding via_root_param
via_root_param_iff false enabled value = (λ h e. absurd (cc), λ h. ([], refl))
via_root_param_iff true true value = (λ h e. refl, λ h. (_, refl))
via_root_param_iff true false value = (λ (r, h). absurd (cc), λ h. absurd (let e = h refl in cc))

publish_param_iff :
    (given : Bool) (values : List String)
    → Succeeds (publish_param given values)
      ↔ (given ≡ true → IsUnique values × All IsOperation values)
unfolding publish_param
publish_param_iff false values = (λ h e. absurd (cc), λ h. ([], refl))
publish_param_iff true values = (
  λ (r, h) _. elim (Result-cases (validated_publication_publish_params values)) [
    | inl v ↦ (validated-eq values).0 v
    | inr (e, v) ↦ absurd (let h' = rw v at h in cc)
  ],
  λ h.
      let (r, v) = (validated-eq values).1 (h refl) in
      (("publish = '" <> join r ", " <> "'") ∷ [], rw v refl),
)

returned :
    (root_first : Bool) (d : ResourceData) (enabled : Bool) (r p : List String)
    → via_root_param
        (is_given d "publish_via_partition_root_param")
        enabled
        (d.get_bool "publish_via_partition_root_param")
      ≡ ok r
    → publish_param (is_given d "publish_param") (d.get_list "publish_param") ≡ ok p
    → (text : String) × (get_publication_parameters root_first d enabled ≡ ok text)
unfolding get_publication_parameters publication_params
returned root_first d enabled r p v w = (
  params_text d.is_new_resource (if root_first then r ++ p else p ++ r),
  rw (v, w, get_publication_parameters, publication_params) refl,
)

-- For both orders of the parameters, a text for them is returned exactly when
-- publish_via_partition_root, if given, is supported by the server, and the publish parameters, if given,
-- are different from each other and each is insert, update, delete or truncate.
pub get_publication_parameters_iff :
    (root_first : Bool) (d : ResourceData) (enabled : Bool)
    → ((text : String) × (get_publication_parameters root_first d enabled ≡ ok text)) ↔ (
        (is_given d "publish_via_partition_root_param" ≡ true → enabled ≡ true)
        × (is_given d "publish_param" ≡ true
            → IsUnique (d.get_list "publish_param") × All IsOperation (d.get_list "publish_param")))
unfolding get_publication_parameters publication_params
get_publication_parameters_iff root_first d enabled =
    let given = is_given d "publish_via_partition_root_param" in
    let root = via_root_param given enabled (d.get_bool "publish_via_partition_root_param") in
    let values = d.get_list "publish_param" in
    let publish = publish_param (is_given d "publish_param") values in
    (
      λ (text, h). elim (Result-cases root) [
        | inr (e, v) ↦
            absurd (let h' = rw (v, get_publication_parameters, publication_params) at h in cc)
        | inl (r, v) ↦ elim (Result-cases publish) [
          | inr (e, w) ↦
              absurd (let h' = rw (v, w, get_publication_parameters, publication_params) at h in cc)
          | inl (p, w) ↦
              ((via_root_param_iff _ enabled _).0 (r, v), (publish_param_iff _ values).0 (p, w))
        ]
      ],
      λ (a, b).
          let (r, v) =
            (via_root_param_iff given enabled (d.get_bool "publish_via_partition_root_param")).1
              a in
          let (p, w) = (publish_param_iff (is_given d "publish_param") values).1 b in
          returned root_first d enabled r p v w,
    )
