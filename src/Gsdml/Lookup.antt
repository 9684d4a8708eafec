-- ===== src/Gsdml/Lookup.antt =====
-- The lookups of the device description.
use pnet2csv.Common.{
  ℕ, ◌≡◌, refl, ◌⊎◌, inl, inr, List, [], ◌∷◌, none, some, arith, All, Option-cases,
}
use pnet2csv.Gsdml.{
  Submodule, submodules, find_submodule, get_submodule_cfg, search_parameter, get_parameter_cfg,
  logts_submodule, logw64_submodule, timestamp_size, var64_data_size,
}

find_submodule-id :
    (ss : List Submodule) (id : ℕ) {s : Submodule} → find_submodule ss id ≡ some s → s.id ≡ id
unfolding find_submodule
find_submodule-id [] id e = cc
find_submodule-id (x ∷ ss) id {s} e = ground (arith, find_submodule-id ss id {s = s})

-- A submodule that is found has the number that was asked for, and it takes data from the
-- controller exactly if it is the timestamp or the variables of the logger, then of their size.
find_submodule-size :
    (ss : List Submodule) (id : ℕ) {s : Submodule}
    → All
        (λ x.
          (x.outsize ≡ 0)
          ⊎ ((x.id ≡ logts_submodule) × (x.outsize ≡ timestamp_size))
          ⊎ ((x.id ≡ logw64_submodule) × (x.outsize ≡ var64_data_size)))
        ss
    → find_submodule ss id ≡ some s
    → (s.outsize ≡ 0)
      ⊎ ((id ≡ logts_submodule) × (s.outsize ≡ timestamp_size))
      ⊎ ((id ≡ logw64_submodule) × (s.outsize ≡ var64_data_size))
unfolding find_submodule
find_submodule-size [] id h e = cc
find_submodule-size (x ∷ ss) id {s} (h, hs) e =
    ground (arith, h, find_submodule-size ss id {s = s} hs)

-- A submodule that is found has the identifier that was asked for. It either takes no data from
-- the controller, or it is the timestamp submodule with 12 bytes or the variable submodule with
-- 128 bytes, the two sizes that `app_data_set_output_data` accepts.
pub get_submodule_cfg_lem :
    (id : ℕ) {s : Submodule}
    → get_submodule_cfg id ≡ some s
    → (s.id ≡ id)
      × ((s.outsize ≡ 0)
          ⊎ ((id ≡ logts_submodule) × (s.outsize ≡ timestamp_size))
          ⊎ ((id ≡ logw64_submodule) × (s.outsize ≡ var64_data_size)))
unfolding get_submodule_cfg
get_submodule_cfg_lem id {s} e = (
  find_submodule-id submodules id e,
  find_submodule-size submodules id
      (
        inl refl,
        (
          inl refl,
          (
            inl refl,
            (
              inl refl,
              (inl refl, (inl refl, (inr (inl (refl, refl)), (inr (inr (refl, refl)), tt)))),
            ),
          ),
        ),
      )
      e,
)

search_parameter-none : (is : List ℕ) (index : ℕ) → search_parameter is index ≡ none
unfolding search_parameter
search_parameter-none [] index = refl
search_parameter-none (i ∷ is) index = ground (arith, search_parameter-none is index)

-- The device supports no parameters: no submodule and no index has a parameter configuration.
pub get_parameter_cfg-none : (id index : ℕ) → get_parameter_cfg id index ≡ none
unfolding get_parameter_cfg
get_parameter_cfg-none id index = elim (Option-cases (get_submodule_cfg id)) [
  | inl missing ↦ rw (missing, get_parameter_cfg)
  | inr (s, found) ↦ rw (found, get_parameter_cfg) (search_parameter-none s.parameters index)
]
