-- ===== src/Policy/Conditions.antt =====
-- The two condition predicates of foundations/policy/src/businessos_policy/contracts.py.
use businessos.Prelude.{
  String, Bool, true, false, not, ◌&&◌, Option, none, some, List, [], ◌∷◌, string_eq, if◌then◌else◌,
  any, all, is_some, ◌≡◌, refl, arith,
}
use businessos.Prelude.Dict.{Dict, get}

-- Literal["eq", "ne", "in"]
pub data Operator : Type 0 where
  equals differs is_in : Operator

pub record AbacCondition (V : Type 0) : Type 0 where
  pub attribute : String
  pub operator : Operator
  pub value : V

-- JSON values, their equality in Python, the items of one that is a list, and the parser of the
-- expression with its validation by pydantic.
pub record Json (V : Type 0) : Type 0 where
  pub same : V → V → Bool
  pub null : V
  pub items : V → Option (List V)
  pub parse : String → Option (List (AbacCondition V))

module _ {V : Type 0} (json : Json V) (attributes : Dict String V) where
  -- The three tests of one condition, none of which fails.
  unfoldable pub holds : AbacCondition V → V → Bool
  holds condition actual = elim condition.operator [
    | equals ↦ json.same actual condition.value
    | differs ↦ not (json.same actual condition.value)
    | is_in ↦ elim (json.items condition.value) [
      | none ↦ false
      | some values ↦ any (json.same actual) values
    ]
  ]

  abbrev or_null : Option V → V
  or_null none = json.null
  or_null (some v) = v

  -- The loop of `_condition_matches`, where an absent attribute is None.
  unfoldable pub lenient_conditions : List (AbacCondition V) → Bool
  lenient_conditions [] = true
  lenient_conditions (c ∷ cs) =
      let rest = lenient_conditions cs in
      if not (holds c (or_null (get attributes c.attribute))) then false else rest

  -- `_condition_matches`
  unfoldable pub lenient_condition_matches : Option String → Bool
  unfolding lenient_conditions
  lenient_condition_matches none = true
  lenient_condition_matches (some expression) = elim (json.parse expression) [
    | none ↦ false
    | some cs ↦ lenient_conditions cs
  ]

  -- The loop of `condition_matches`, where an absent attribute fails.
  unfoldable pub strict_conditions : List (AbacCondition V) → Bool
  strict_conditions [] = true
  strict_conditions (c ∷ cs) =
      let rest = strict_conditions cs in
      elim (get attributes c.attribute) [
        | none ↦ false
        | some actual ↦ if not (holds c actual) then false else rest
      ]

  unfoldable pub condition_matches : Option String → Bool
  unfolding strict_conditions
  condition_matches none = true
  condition_matches (some expression) = elim (json.parse expression) [
    | none ↦ false
    | some cs ↦ strict_conditions cs
  ]

  unfoldable pub condition_is_valid : Option String → Bool
  condition_is_valid none = true
  condition_is_valid (some expression) = is_some (json.parse expression)

  abbrev pub conditions_of : Option String → List (AbacCondition V)
  conditions_of none = []
  conditions_of (some expression) = elim (json.parse expression) [ none ↦ [] | some cs ↦ cs ]

  abbrev pub are_present : List (AbacCondition V) → Bool
  are_present = all (λ c. is_some (get attributes c.attribute))

  strict_conditions_lem :
      (cs : List (AbacCondition V)) → strict_conditions cs ≡ are_present cs && lenient_conditions cs
  unfolding strict_conditions lenient_conditions
  strict_conditions_lem [] = refl
  strict_conditions_lem (c ∷ cs) = ground (arith, strict_conditions_lem cs)

  -- `condition_matches` accepts exactly what `_condition_matches` accepts with every attribute that the
  -- expression names present.
  pub condition_matches_lem :
      (expression : Option String)
      → condition_matches expression
        ≡ are_present (conditions_of expression) && lenient_condition_matches expression
  unfolding condition_matches lenient_condition_matches
  condition_matches_lem none = refl
  condition_matches_lem (some expression) = go (json.parse expression) refl
    where
      go :
          (o : Option (List (AbacCondition V)))
          → json.parse expression ≡ o
          → condition_matches (some expression)
            ≡ are_present (conditions_of (some expression))
              && lenient_condition_matches (some expression)
      go none is = ground (arith, is)
      go (some cs) is = ground (arith, is, strict_conditions_lem cs)
