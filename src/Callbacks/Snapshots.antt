-- ===== src/Callbacks/Snapshots.antt =====
-- app/callbacks.py: what a snapshot shows of a tool's result.
use diy_agent.Prelude.{
  ◌≡◌, refl, sym, subst, ap, ◌∙◌, String, Option, none, some, List, [], ◌∷◌, Bool, true, false,
  ◌||◌, Json, Fields, obj, field, inl, inr, text_eq, lookup_field, has_key, Bool-cases,
  Option-cases, arith, if_true, if_false, if◌then◌else◌, or_default,
}
use text.Mathlib.TextEquality.{eq_iff}
use diy_agent.Callbacks.Outputs.{
  ToolOutput, tool_result_object, pick, error_keys, allowed_keys, is_text, allowed_snapshot,
  snapshot_of, build_tool_snapshot,
}

-- `key in keys`
abbrev pub has_text : String → List String → Bool
has_text key [] = false
has_text key (k ∷ keys) = text_eq k key || has_text key keys

-- The keys that a snapshot of this result may show.
abbrev pub visible_keys : String → Fields → List String
visible_keys name result =
    if is_text (lookup_field "status" result) "error"
    then error_keys
    else or_default (allowed_keys name) []

-- A key of the picked fields is one of the keys and a key of the result, with the same value.
abbrev pub Shows : String → List String → Fields → Fields → Type 0
Shows key keys result picked =
    has_key key picked ≡ true
    → (has_text key keys ≡ true)
      × (has_key key result ≡ true)
      × (lookup_field key picked ≡ lookup_field key result)

Shows-more :
    (key k : String) (keys : List String) (result picked : Fields)
    → Shows key keys result picked
    → Shows key (k ∷ keys) result picked
Shows-more key k keys result picked h there =
    let (listed, had, same) = h there in (ground arith, had, same)

Shows-field :
    (key k : String) (keys : List String) (result picked : Fields)
    → has_key k result ≡ true
    → Shows key keys result picked
    → Shows key (k ∷ keys) result (field k (lookup_field k result) picked)
Shows-field key k keys result picked found h there = elim (Bool-cases (text_eq k key)) [
  | inl same ↦
      let e : k ≡ key = (eq_iff k key).0 same in
      (
        ground arith,
        subst (λ w. has_key w result ≡ true) e found,
        if_true _ _ same ∙ ap (λ w. lookup_field w result) e,
      )
  | inr differs ↦
      let (listed, had, same) = h (sym (if_false _ _ differs) ∙ there) in
      (ground arith, had, if_false _ _ differs ∙ same)
]

pick-Shows : (keys : List String) (fs : Fields) (key : String) → Shows key keys fs (pick keys fs)
unfolding pick
pick-Shows [] fs key = λ there. ground arith
pick-Shows (k ∷ keys) fs key = elim (Bool-cases (has_key k fs)) [
  | inl found ↦
      subst (Shows key (k ∷ keys) fs) (sym (if_true _ _ found))
        (Shows-field key k keys fs (pick keys fs) found (pick-Shows keys fs key))
  | inr missing ↦
      subst (Shows key (k ∷ keys) fs) (sym (if_false _ _ missing))
        (Shows-more key k keys fs (pick keys fs) (pick-Shows keys fs key))
]

-- A snapshot is made of the picked fields.
snapshot-eq-pick :
    (bad : Bool) (allowed : Option (List String)) (result shown : Fields)
    → (if bad then some (obj (pick error_keys result)) else allowed_snapshot allowed result)
      ≡ some (obj shown)
    → pick (if bad then error_keys else or_default allowed []) result ≡ shown
unfolding allowed_snapshot
snapshot-eq-pick true allowed result shown h = cc h
snapshot-eq-pick false none result shown h = absurd (ground (arith, h))
snapshot-eq-pick false (some keys) result shown h = cc h

-- The snapshot of an output of a tool, where there is one, holds nothing but what the output's
-- dictionary holds: a key of it is a key of that dictionary with the same value, and it is one of
-- `status`, `error_code` and `message` if the dictionary reports an error, and one of the keys
-- that the tool may show if not.
pub snapshot-shows :
    (loads : String → Option Json) (name : String) (output : ToolOutput) (shown : Fields)
    (key : String)
    → build_tool_snapshot loads name output ≡ some (obj shown)
    → has_key key shown ≡ true
    → (result : Fields) × (tool_result_object loads output ≡ some result)
      × (has_text key (visible_keys name result) ≡ true)
      × (has_key key result ≡ true)
      × (lookup_field key shown ≡ lookup_field key result)
unfolding build_tool_snapshot snapshot_of
snapshot-shows loads name output shown key h there =
    elim (Option-cases (tool_result_object loads output)) [
      | inl nothing ↦ absurd (ground (arith, rw (nothing, build_tool_snapshot) at h))
      | inr (result, e) ↦
          let made : snapshot_of name result ≡ some (obj shown) =
            sym (rw (e, build_tool_snapshot) refl) ∙ h in
          let picked =
            snapshot-eq-pick (is_text (lookup_field "status" result) "error") (allowed_keys name)
              result shown made in
          let (listed, had, same) =
            subst (Shows key (visible_keys name result) result) picked
              (pick-Shows (visible_keys name result) result key) there in
          (result, e, listed, had, same)
    ]
