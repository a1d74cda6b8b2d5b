-- ===== src/Secrets/Vault/Fields.antt =====
-- The fields of the vault: at most 64, with distinct names that are fit to be shown.
use codex_hosts.Prelude.{
  ◌+◌, ◌≤◌, ◌≡◌, ◌≢◌, sym, ◌∙◌, inl, inr, Bool, true, false, List, [], ◌∷◌, ◌++◌, ltb, Text, length,
  ok, ok_injective, refuse_if-eq-ok, arith, Bool-cases, append_assoc, append-nil, length-append,
  All, All-append, text_eq_iff, text_eq_refl, if-case, Apart, Apart-concat,
}
use codex_hosts.Secrets.Vault.{
  max_fields, Field, Vault, name_ok, names_ok, bad_names, missing, validate_names, has_field,
  new_field, add_fields, request,
}

abbrev pub OtherField : Field → Field → Type 0
OtherField f g = g.name ≢ f.name

abbrev pub HasFitName : Field → Type 0
HasFitName f = name_ok f.name ≡ true

pub record AreSound (fields : List Field) : Type 0 where
  pub few : length fields ≤ max_fields
  pub distinct : Apart OtherField fields
  pub fit : All HasFitName fields

abbrev IsFit : Text → Type 0
IsFit n = name_ok n ≡ true

names_ok-IsFit : (seen names : List Text) → names_ok seen names ≡ true → All IsFit names
unfolding names_ok
names_ok-IsFit seen [] h = tt
names_ok-IsFit seen (n ∷ ns) h = (ground arith, names_ok-IsFit (n ∷ seen) ns (ground arith))

has_field-more :
    (fields more : List Field) (n : Text)
    → has_field fields n ≡ true
    → has_field (fields ++ more) n ≡ true
has_field-more [] more n h = cc
has_field-more (f ∷ fields) more n h = ground (arith, has_field-more fields more n)

missing-more :
    (fields more : List Field) (names : List Text)
    → missing (fields ++ more) names ≤ missing fields names
missing-more fields more [] = omega arith
missing-more fields more (n ∷ ns) =
    ground (arith, missing-more fields more ns, has_field-more fields more n)

length-add_fields :
    (b : Bool) (names : List Text) (fields : List Field)
    → length (add_fields b names fields) ≤ length fields + missing fields names
unfolding add_fields
length-add_fields b [] fields = omega arith
length-add_fields b (n ∷ ns) fields = elim (Bool-cases (has_field fields n)) [
  | inl e ↦ rw e (omega (arith, length-add_fields b ns fields))
  | inr e ↦ rw e (
      omega (
        arith,
        length-add_fields b ns (fields ++ new_field b n ∷ []),
        missing-more fields (new_field b n ∷ []) ns,
        length-append fields (new_field b n ∷ []),
      ))
]

-- no field has the name
new_name :
    (fields : List Field) (f : Field)
    → has_field fields f.name ≡ false
    → All (λ g. OtherField g f) fields
new_name [] f h = tt
new_name (g ∷ fields) f h =
    ((λ e. ground (arith, text_eq_iff g.name f.name, sym e)), new_name fields f (ground arith))

add_fields-distinct :
    (b : Bool) (names : List Text) (fields : List Field)
    → Apart OtherField fields
    → Apart OtherField (add_fields b names fields)
unfolding add_fields
add_fields-distinct b [] fields h = h
add_fields-distinct b (n ∷ ns) fields h = elim (Bool-cases (has_field fields n)) [
  | inl e ↦ rw e (add_fields-distinct b ns fields h)
  | inr e ↦ rw e (
      add_fields-distinct b ns (fields ++ new_field b n ∷ [])
        (Apart-concat OtherField fields (new_field b n) (new_name fields (new_field b n) e) h))
]

add_fields-fit :
    (b : Bool) (names : List Text) (fields : List Field)
    → All IsFit names
    → All HasFitName fields
    → All HasFitName (add_fields b names fields)
unfolding add_fields
add_fields-fit b [] fields a h = h
add_fields-fit b (n ∷ ns) fields (fit, a) h = elim (Bool-cases (has_field fields n)) [
  | inl e ↦ rw e (add_fields-fit b ns fields a h)
  | inr e ↦ rw e (
      add_fields-fit b ns (fields ++ new_field b n ∷ []) a
        (All-append HasFitName fields (new_field b n ∷ []) h (fit, tt)))
]

has_field-concat : (fields : List Field) (f : Field) → has_field (fields ++ f ∷ []) f.name ≡ true
has_field-concat [] f = ground (arith, text_eq_refl f.name)
has_field-concat (g ∷ fields) f = ground (arith, has_field-concat fields f)

-- what was there stays in place, and all names are there
abbrev pub Grown : List Field → List Text → List Field → Type 0
Grown fields names r =
    ((more : List Field) × (r ≡ fields ++ more)) × All (λ n. has_field r n ≡ true) names

add_fields-Grown :
    (b : Bool) (names : List Text) (fields : List Field)
    → Grown fields names (add_fields b names fields)
unfolding add_fields
add_fields-Grown b [] fields = (([], sym (append-nil fields)), tt)
add_fields-Grown b (n ∷ ns) fields =
    let f = new_field b n in
    if-case (λ fs. Grown fields (n ∷ ns) (add_fields b ns fs)) (has_field fields n)
      (λ e.
        let ((more, same), a) = add_fields-Grown b ns fields in
        ((more, same), ((rw same (has_field-more fields more n e)), a)))
      (λ _.
        let ((more, same), a) = add_fields-Grown b ns (fields ++ f ∷ []) in
        (
          (f ∷ more, same ∙ append_assoc fields (f ∷ []) more),
          ((rw same (has_field-more (fields ++ f ∷ []) more n (has_field-concat fields f))), a),
        ))

add_fields-AreSound :
    (b : Bool) (names : List Text) (fields : List Field)
    → names_ok [] names ≡ true
    → length fields + missing fields names ≤ max_fields
    → AreSound fields
    → AreSound (add_fields b names fields)
add_fields-AreSound b names fields fit room h = record {
  few = omega (arith, length-add_fields b names fields);
  distinct = add_fields-distinct b names fields h.distinct;
  fit = add_fields-fit b names fields (names_ok-IsFit [] names fit) h.fit;
}

-- An accepted declaration keeps the fields that are there and adds the new names behind them, so that
-- all names are there; and a vault within 64 fields with distinct, fit names stays so.
pub request-AreSound :
    (names : List Text) (v w : Vault)
    → AreSound v.fields
    → request names v ≡ ok w
    → AreSound w.fields × Grown v.fields names w.fields
unfolding request validate_names
request-AreSound names v w h e =
    let (fine, e₁) = refuse_if-eq-ok (bad_names names false) "FIELD_NAMES_INVALID" _ e in
    let over = ltb max_fields (length v.fields + missing v.fields names) in
    let (room, e₂) = refuse_if-eq-ok over "FIELD_LIMIT" _ e₁ in
    let fit : names_ok [] names ≡ true = ground arith in
    let small : length v.fields + missing v.fields names ≤ max_fields = ground arith in
    rw (← ok_injective e₂) (
      add_fields-AreSound v.default_requires_approval names v.fields fit small h,
      add_fields-Grown v.default_requires_approval names v.fields,
    )
