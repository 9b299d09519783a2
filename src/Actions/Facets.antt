-- ===== src/Actions/Facets.antt =====
-- The facets that an envelope's on-chain hints name.
use x402b.Prelude.{
  ap, String, List, [], ◌∷◌, map, none, some, ◌≡◌, refl, ◌==◌, string_eq, includes, get, put,
  get-put, arith, Bool-cases, if◌then◌else◌, inl, inr,
}
use x402b.Machine.{ActionId, action_name, action_facets}
use x402b.Machine.Names.{action_name_injective}
use x402b.Actions.{facets_from, action_facets_for}

get-facets_from :
    (ids : List ActionId) (out : List (String × String)) (a : ActionId)
    → get (facets_from out ids) (action_name a) ≡ (
        if includes (map action_name ids) (action_name a)
        then some (action_facets a)
        else get out (action_name a))
unfolding facets_from
get-facets_from [] out a = refl
get-facets_from (b ∷ bs) out a = elim (Bool-cases (action_name b == action_name a)) [
  | inl same ↦
      let e : b ≡ a = action_name_injective b a same in
      ground (
        arith,
        get-facets_from bs (put out (action_name b) (action_facets b)) a,
        get-put out (action_name b) (action_name a) (action_facets b),
        ap action_facets e,
      )
  | inr other ↦ ground (
    arith,
    get-facets_from bs (put out (action_name b) (action_facets b)) a,
    get-put out (action_name b) (action_name a) (action_facets b),
  )
]

-- The facet table of an envelope holds the facet of each action that is advertised, and no entry for
-- an action that is not.
get-action_facets_for :
    (ids : List ActionId) (a : ActionId)
    → get (action_facets_for ids) (action_name a)
      ≡ (if includes (map action_name ids) (action_name a) then some (action_facets a) else none)
unfolding action_facets_for
get-action_facets_for ids a = get-facets_from ids [] a
