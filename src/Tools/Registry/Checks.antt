-- ===== src/Tools/Registry/Checks.antt =====
-- What a checked tool call guarantees, and what `register` adds to the registry.
use forge_agent.Base.{
  ◌≢◌, sym, ap, subst, ◌∙◌, Bool, ◌||◌, Option, Bool-cases, Option-cases, any, ◌≡◌, ◌↔◌, ◌⊎◌, refl,
  String, true, false, not, none, some, List, [], ◌∷◌, ◌++◌, arith, str_eq, eq_iff, select,
  if◌then◌else◌, ok, All, inl, inr,
}
use forge_agent.Tools.Registry.{
  ToolResult, Value, null, boolean, integer, real, string, array, matches_json_type, property_type,
  Fields, end, field, object, Schema, has_field, field_fits, first_misfit, validate_tool_params,
  Tool, Registry, find_tool, register, validate_tool_call, execute_tool, caught,
}

-- the names of the types of JSON
abbrev pub json_types : List String
json_types = "integer" ∷ "number" ∷ "null" ∷ "string" ∷ "boolean" ∷ "object" ∷ "array" ∷ []

-- the types that a value has; a truth value is no number
abbrev pub types_of : Value → List String
types_of null = "null" ∷ []
types_of (boolean b) = "boolean" ∷ []
types_of (integer s n) = "integer" ∷ "number" ∷ []
types_of (real r) = "number" ∷ []
types_of (string s) = "string" ∷ []
types_of (array xs) = "array" ∷ []
types_of (object fs) = "object" ∷ []

-- The value has the type, or the type is none of JSON.
abbrev pub HasType : Value → String → Type 0
HasType v t =
    (any (λ u. str_eq t u) (types_of v) ≡ true) ⊎ (any (λ u. str_eq t u) json_types ≡ false)

-- The schema gives this type for the name: by the first property of that name.
abbrev pub Declares : String → String → List (String × Option String) → Type 0
Declares k t [] = ⊥
Declares k t ((j, o) ∷ ps) = ((j ≡ k) × (o ≡ some t)) ⊎ ((j ≢ k) × Declares k t ps)

or_true : (b : Bool) → (b || true) ≡ true
or_true true = refl
or_true false = refl

split : (b c : Bool) → (b || not c) ≡ true → (b ≡ true) ⊎ (c ≡ false)
split true c h = inl refl
split false true h = absurd (ground (arith, h))
split false false h = inr refl

joined : (b c : Bool) → (b ≡ true) ⊎ (c ≡ false) → (b || not c) ≡ true
joined true c h = refl
joined false false h = refl
joined false true (inl e) = absurd (ground (arith, e))
joined false true (inr e) = absurd (ground (arith, e))

-- Every argument of the call has the type that the schema gives for it.
abbrev pub AllFit : Schema → Fields → Type 0
AllFit schema end = Unit
AllFit schema (field k v fs) =
    ((t : String) → Declares k t schema.properties → HasType v t) × AllFit schema fs

-- an argument has the name
abbrev pub Given : String → Fields → Type 0
Given k end = ⊥
Given k (field j v fs) = (j ≡ k) ⊎ Given k fs

-- The call has every required argument.
abbrev pub HasRequired : List String → Fields → Type 0
HasRequired names fs = All (λ k. Given k fs) names

abbrev fits : Value → String → Bool
fits v t = any (λ u. str_eq t u) (types_of v) || not (any (λ u. str_eq t u) json_types)

named-matches : (v : Value) → All (λ t. matches_json_type v t ≡ fits v t) json_types
unfolding matches_json_type
named-matches null = (refl, (refl, (refl, (refl, (refl, (refl, (refl, tt)))))))
named-matches (boolean b) = (refl, (refl, (refl, (refl, (refl, (refl, (refl, tt)))))))
named-matches (integer s n) = (refl, (refl, (refl, (refl, (refl, (refl, (refl, tt)))))))
named-matches (real r) = (refl, (refl, (refl, (refl, (refl, (refl, (refl, tt)))))))
named-matches (string s) = (refl, (refl, (refl, (refl, (refl, (refl, (refl, tt)))))))
named-matches (array xs) = (refl, (refl, (refl, (refl, (refl, (refl, (refl, tt)))))))
named-matches (object fs) = (refl, (refl, (refl, (refl, (refl, (refl, (refl, tt)))))))

other-matches :
    (v : Value) (t : String)
    → any (λ u. str_eq t u) json_types ≡ false
    → matches_json_type v t ≡ true
unfolding matches_json_type
other-matches v t h = ground (arith, h)

All-named :
    (P : String → Type 0) (ks : List String) (t : String)
    → All P ks
    → any (λ u. str_eq t u) ks ≡ true
    → P t
All-named P [] t h e = absurd (ground (arith, e))
All-named P (k ∷ ks) t (h, hs) e = elim (Bool-cases (str_eq t k)) [
  | inl q ↦ subst P (sym ((eq_iff t k).0 q)) h
  | inr q ↦ All-named P ks t hs (ground (arith, e, q))
]

matches-fits : (v : Value) (t : String) → matches_json_type v t ≡ fits v t
matches-fits v t = elim (Bool-cases (any (λ u. str_eq t u) json_types)) [
  | inl e ↦ All-named (λ u. matches_json_type v u ≡ fits v u) json_types t (named-matches v) e
  | inr e ↦
      other-matches v t e
      ∙ sym (
          ap (λ b. any (λ u. str_eq t u) (types_of v) || not b) e
          ∙ or_true (any (λ u. str_eq t u) (types_of v)))
]

matches-HasType : (v : Value) (t : String) → (matches_json_type v t ≡ true) ↔ HasType v t
matches-HasType v t = (
  λ h.
      split (any (λ u. str_eq t u) (types_of v)) (any (λ u. str_eq t u) json_types)
        (sym (matches-fits v t) ∙ h),
  λ h.
      matches-fits v t
      ∙ joined (any (λ u. str_eq t u) (types_of v)) (any (λ u. str_eq t u) json_types) h,
)

property-Declares :
    (k t : String) (ps : List (String × Option String))
    → (property_type k ps ≡ some t) ↔ Declares k t ps
property-Declares k t [] = (λ h. absurd (ground (arith, h)), λ h. absurd h)
property-Declares k t ((j, o) ∷ ps) = elim (Bool-cases (str_eq j k)) [
  | inl e ↦ (
    λ h. inl ((eq_iff j k).0 e, ground (arith, h, e)),
    λ h. elim h [ inl (q, p) ↦ ground (arith, e, p) | inr (n, d) ↦ absurd (n ((eq_iff j k).0 e)) ],
  )
  | inr e ↦ (
    λ h. inr (
      λ q. absurd (ground (arith, e, (eq_iff j k).1 q)),
      (property-Declares k t ps).0 (ground (arith, h, e)),
    ),
    λ h. elim h [
      | inl (q, p) ↦ absurd (ground (arith, e, (eq_iff j k).1 q))
      | inr (n, d) ↦ ground (arith, e, (property-Declares k t ps).1 d)
    ],
  )
]

field_fits-type :
    (schema : Schema) (k : String) (v : Value)
    → (field_fits schema k v ≡ true) ↔ ((t : String) → Declares k t schema.properties → HasType v t)
field_fits-type schema k v = elim (Option-cases (property_type k schema.properties)) [
  | inl e ↦ (
    λ h t d. absurd (ground (arith, e, (property-Declares k t schema.properties).1 d)),
    λ h. rw (e, field_fits) refl,
  )
  | inr (u, e) ↦ (
    λ h t d.
        let same : u ≡ t = ground (arith, e, (property-Declares k t schema.properties).1 d) in
        subst (HasType v) same ((matches-HasType v u).0 (ground (arith, h, e))),
    λ h.
        rw (e, field_fits)
          ((matches-HasType v u).1 (h u ((property-Declares k u schema.properties).0 e))),
  )
]

has_field-Given : (k : String) (fs : Fields) → (has_field k fs ≡ true) ↔ Given k fs
has_field-Given k end = (λ h. absurd (ground (arith, h)), λ h. absurd h)
has_field-Given k (field j v fs) = elim (Bool-cases (str_eq j k)) [
  | inl e ↦ (λ h. inl ((eq_iff j k).0 e), λ h. rw e refl)
  | inr e ↦ (
    λ h. inr ((has_field-Given k fs).0 (ground (arith, h, e))),
    λ h. elim h [
      | inl q ↦ absurd (ground (arith, e, (eq_iff j k).1 q))
      | inr g ↦ rw e ((has_field-Given k fs).1 g)
    ],
  )
]

missing_none :
    (fs : Fields) (names : List String)
    → select (λ k. not (has_field k fs)) names ≡ []
    → HasRequired names fs
missing_none fs [] h = tt
missing_none fs (k ∷ ks) h =
    ((has_field-Given k fs).0 (ground arith), missing_none fs ks (ground arith))

required_none :
    (fs : Fields) (names : List String)
    → HasRequired names fs
    → select (λ k. not (has_field k fs)) names ≡ []
required_none fs [] h = refl
required_none fs (k ∷ ks) h = ground (arith, required_none fs ks h.1, (has_field-Given k fs).1 h.0)

misfit_none : (schema : Schema) (fs : Fields) → first_misfit schema fs ≡ none → AllFit schema fs
unfolding first_misfit
misfit_none schema end h = tt
misfit_none schema (field k v fs) h =
    ((field_fits-type schema k v).0 (ground arith), misfit_none schema fs (ground arith))

fit_none : (schema : Schema) (fs : Fields) → AllFit schema fs → first_misfit schema fs ≡ none
unfolding first_misfit
fit_none schema end h = refl
fit_none schema (field k v fs) h =
    ground (arith, fit_none schema fs h.1, (field_fits-type schema k v).1 h.0)

List-cases : (xs : List String) → (xs ≡ []) ⊎ ((k : String) × (ks : List String) × (xs ≡ k ∷ ks))
List-cases [] = inl refl
List-cases (k ∷ ks) = inr (k, ks, refl)

object_params :
    (schema : Schema) (fs : Fields)
    → (validate_tool_params (object fs) schema ≡ none)
      ↔ (HasRequired schema.required fs × AllFit schema fs)
unfolding validate_tool_params
object_params schema fs = elim (List-cases (select (λ k. not (has_field k fs)) schema.required)) [
  | inl q ↦ (
    (λ h. (missing_none fs schema.required q, misfit_none schema fs (ground arith))),
    (λ h. rw (q, validate_tool_params) (fit_none schema fs h.1)),
  )
  | inr (k, ks, q) ↦ (
    (λ h. absurd (ground arith)),
    (λ h. absurd (ground (arith, required_none fs schema.required h.0))),
  )
]

is_object :
    (params : Value) (schema : Schema)
    → validate_tool_params params schema ≡ none
    → (fs : Fields) × (params ≡ object fs)
unfolding validate_tool_params
is_object (object fs) schema h = (fs, refl)
is_object null schema h = absurd (ground (arith, h))
is_object (boolean b) schema h = absurd (ground (arith, h))
is_object (integer s n) schema h = absurd (ground (arith, h))
is_object (real r) schema h = absurd (ground (arith, h))
is_object (string s) schema h = absurd (ground (arith, h))
is_object (array xs) schema h = absurd (ground (arith, h))

-- The arguments of a call pass exactly when they are an object that has every required name and
-- whose values have the types that the schema declares for them: a truth value is no integer and no
-- number, an integer is a number, and a type that JSON does not have fits every value.
pub validate_tool_params_iff :
    (params : Value) (schema : Schema)
    → (validate_tool_params params schema ≡ none)
      ↔ ((fs : Fields) × (params ≡ object fs) × HasRequired schema.required fs × AllFit schema fs)
validate_tool_params_iff params schema = (
  λ h.
      let (fs, e) = is_object params schema h in
      let (r, a) =
        (object_params schema fs).0 (ap (λ p. validate_tool_params p schema) (sym e) ∙ h) in
      (fs, e, r, a),
  λ (fs, e, r, a). ap (λ p. validate_tool_params p schema) e ∙ (object_params schema fs).1 (r, a),
)

find-append :
    (k : String) (ts : Registry) (t : Tool)
    → find_tool k (ts ++ t ∷ [])
      ≡ elim (find_tool k ts) [ some u ↦ some u | none ↦ if str_eq t.name k then some t else none ]
unfolding find_tool
find-append k [] t = refl
find-append k (u ∷ us) t = ground (arith, find-append k us t)

-- A registered tool is the one that its name finds, and no other name finds another tool than
-- before; a second tool of that name is refused.
pub find_tool-register :
    (ts us : Registry) (t : Tool)
    → register t ts ≡ ok us
    → (k : String) → find_tool k us ≡ (if str_eq t.name k then some t else find_tool k ts)
unfolding register
find_tool-register ts us t h k = ground (arith, find-append k ts t, eq_iff t.name k)

-- A registered tool is run on the arguments that its schema accepts, what it raises is turned
-- into a failed result, and arguments that its schema refuses never reach it.
pub execute_tool-register :
    (ts us : Registry) (t : Tool) (params : Value)
    → register t ts ≡ ok us
    → execute_tool us t.name params ≡ elim (validate_tool_call us t.name params) [
      | none ↦ caught t.name (t.run params)
      | some invalid ↦ invalid
    ]
unfolding execute_tool
execute_tool-register ts us t params h =
    ground (arith, find_tool-register ts us t h t.name, eq_iff t.name t.name)

pub validate_tool_call-fails :
    (ts : Registry) (name : String) (params : Value) (r : ToolResult)
    → validate_tool_call ts name params ≡ some r
    → r.success ≡ false
unfolding validate_tool_call
validate_tool_call-fails ts name params r h = ground arith
