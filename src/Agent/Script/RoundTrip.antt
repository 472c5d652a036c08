-- ===== src/Agent/Script/RoundTrip.antt =====
-- A validated script is read back as the outcomes that it was accepted for.
use hilforge.Base.{
  ◌||◌, ◌&&◌, ◌≡◌, ◌≢◌, inl, inr, refl, sym, ap, ◌∙◌, Bool, true, false, not, some, List, [], ◌∷◌,
  map, all, where_true, arith, All, Bool-cases, some-injective, ◌&&◌,
}
use hilforge.Text.{Codes, codes_eq, codes_eq-eq, strip, lower, split_on, join}
use hilforge.Text.Split.{split_on-join}
use hilforge.Agent.Engine.{ScriptedOutcome, pass, fail, transient, disconnect}
use hilforge.Agent.Script.{
  comma, outcome_name, is_supported, is_blank, script_items, check_items, validate_outcome_script,
  scripted_outcomes,
}

last : (a b c d : Bool) → (a || b || c || d) ≡ true → a ≡ false → b ≡ false → c ≡ false → d ≡ true
last a b c d h e f g = ground arith

both : (a b : Bool) → (a && b) ≡ true → (a ≡ true) × (b ≡ true)
both true b h = (refl, h)
both false b h = cc

-- A supported item is the name of an outcome.
named : (item : Codes) → is_supported item ≡ true → (o : ScriptedOutcome) × (item ≡ outcome_name o)
unfolding is_supported
named item h = elim (Bool-cases (codes_eq item (outcome_name pass))) [
  | inl e ↦ (pass, codes_eq-eq _ _ e)
  | inr e ↦ elim (Bool-cases (codes_eq item (outcome_name fail))) [
    | inl f ↦ (fail, codes_eq-eq _ _ f)
    | inr f ↦ elim (Bool-cases (codes_eq item (outcome_name transient))) [
      | inl g ↦ (transient, codes_eq-eq _ _ g)
      | inr g ↦ (disconnect, codes_eq-eq _ _ (last _ _ _ _ h e f g))
    ]
  ]
]

names_named :
    (items : List Codes)
    → all is_supported items ≡ true
    → (os : List ScriptedOutcome) × (items ≡ map outcome_name os)
names_named [] h = ([], refl)
names_named (w ∷ ws) h =
    let (here, rest) = both (is_supported w) (all is_supported ws) h in
    let (o, e) = named w here in let (os, f) = names_named ws rest in (o ∷ os, cc)

name_has_no_comma : (o : ScriptedOutcome) → All (λ c. c ≢ comma) (outcome_name o)
name_has_no_comma pass = omega arith
name_has_no_comma fail = omega arith
name_has_no_comma transient = omega arith
name_has_no_comma disconnect = omega arith

names_have_no_comma : (os : List ScriptedOutcome) → All (All (λ c. c ≢ comma)) (map outcome_name os)
names_have_no_comma [] = tt
names_have_no_comma (o ∷ os) = (name_has_no_comma o, names_have_no_comma os)

-- What the validator accepts: names of outcomes, at least one, joined again.
pub validate_outcome_script-made :
    (value : Codes) {script : Codes}
    → validate_outcome_script value ≡ some script
    → (o : ScriptedOutcome) × (os : List ScriptedOutcome) × (script_items value
        ≡ map outcome_name (o ∷ os))
      × (script ≡ join comma (map outcome_name (o ∷ os)))
unfolding validate_outcome_script check_items
validate_outcome_script-made value h = checked (script_items value) h
  where
    checked :
        (items : List Codes) {script : Codes}
        → check_items items ≡ some script
        → (o : ScriptedOutcome) × (os : List ScriptedOutcome) × (items ≡ map outcome_name (o ∷ os))
          × (script ≡ join comma (map outcome_name (o ∷ os)))
    checked [] h = cc
    checked (w ∷ ws) {script} h = elim (Bool-cases (all is_supported (w ∷ ws))) [
      | inr other ↦ absurd (ground (arith, other))
      | inl all_named ↦
          let (here, rest) = both (is_supported w) (all is_supported ws) all_named in
          let (o, e) = named w here in
          let (os, f) = names_named ws rest in
          let same : w ∷ ws ≡ map outcome_name (o ∷ os) = cc in
          (o, os, same, sym (some-injective _ _ (rw all_named at h)) ∙ ap (join comma) same)
    ]

-- If a script is accepted, its trimmed items in lower case are the names of some outcomes, at least
-- one, and the accepted text is read back as exactly these names.
pub scripted_outcomes-validate_outcome_script :
    (value : Codes) {script : Codes}
    → validate_outcome_script value ≡ some script
    → (o : ScriptedOutcome) × (os : List ScriptedOutcome) × (script_items value
        ≡ map outcome_name (o ∷ os))
      × (scripted_outcomes script ≡ map outcome_name (o ∷ os))
unfolding scripted_outcomes
scripted_outcomes-validate_outcome_script value h =
    let (o, os, e, s) = validate_outcome_script-made value h in
    (
      o,
      os,
      e,
      ap (split_on comma) s
          ∙ split_on-join comma (outcome_name o) (map outcome_name os)
              (names_have_no_comma (o ∷ os)),
    )

clean : (o : ScriptedOutcome) → lower (strip (outcome_name o)) ≡ outcome_name o
unfolding lower strip
clean pass = refl
clean fail = refl
clean transient = refl
clean disconnect = refl

visible : (o : ScriptedOutcome) → not (is_blank (strip (outcome_name o))) ≡ true
unfolding strip
visible pass = refl
visible fail = refl
visible transient = refl
visible disconnect = refl

name_is_supported : (o : ScriptedOutcome) → is_supported (outcome_name o) ≡ true
unfolding is_supported
name_is_supported pass = refl
name_is_supported fail = refl
name_is_supported transient = refl
name_is_supported disconnect = refl

names_are_supported : (os : List ScriptedOutcome) → all is_supported (map outcome_name os) ≡ true
names_are_supported [] = refl
names_are_supported (o ∷ os) = rw (name_is_supported o) (names_are_supported os)

check_names :
    (o : ScriptedOutcome) (os : List ScriptedOutcome)
    → check_items (map outcome_name (o ∷ os)) ≡ some (join comma (map outcome_name (o ∷ os)))
unfolding check_items
check_names o os = rw (names_are_supported (o ∷ os))

items_of_names :
    (os : List ScriptedOutcome)
    → map
        (λ item. lower (strip item))
        (where_true (λ item. not (is_blank (strip item))) (map outcome_name os))
      ≡ map outcome_name os
items_of_names [] = refl
items_of_names (o ∷ os) =
    rw (visible o) (rw (clean o) (ap (λ (l : List Codes). outcome_name o ∷ l) (items_of_names os)))

-- A script that the validator returns is accepted again, and returned as it is.
pub validate_outcome_script_again :
    (value : Codes) {script : Codes}
    → validate_outcome_script value ≡ some script
    → validate_outcome_script script ≡ some script
unfolding validate_outcome_script script_items scripted_outcomes
validate_outcome_script_again value {script} h =
    let (o, os, e, s) = validate_outcome_script-made value h in
    let (o', os', e', split) = scripted_outcomes-validate_outcome_script value h in
    let items : script_items script ≡ map outcome_name (o' ∷ os') =
      rw split (items_of_names (o' ∷ os')) in
    ap check_items (items ∙ sym e' ∙ e) ∙ check_names o os ∙ ap some (sym s)
