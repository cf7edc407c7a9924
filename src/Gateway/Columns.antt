-- ===== src/Gateway/Columns.antt =====
-- The columns that authorizedColumns lets through.
use nim_near.Prelude.{
  ℕ, ◌≡◌, refl, subst, true, false, not, ◌||◌, List, [], ◌∷◌, arith, ◌==◌, Text, to_lower, any, ok,
  plain, bad_request, require, bind-eq-ok, require-eq-ok,
}
use nim_near.Hub.State.{contains_text}
use nim_near.Gateway.Ident.{
  Sanitizer, IsSanitizer, quoted, is_letter, is_word_byte, is_sql_identifier,
  validate_sql_identifier, quote_sql_identifier, checked_columns, allowed_columns,
  authorized_columns, reserved_gateway_columns,
}

-- A name of the safe grammar between double quotes: what is inside cannot end the quotation.
abbrev pub IsQuoted : Text → Text → Type 0
IsQuoted name column = (is_sql_identifier name ≡ true) × (column ≡ quoted name)

word_byte : (c : ℕ) → is_word_byte c ≡ true → (c == b'"' || c == 0) ≡ false
word_byte c h = ground arith

letter-word : (c : ℕ) → is_letter c ≡ true → is_word_byte c ≡ true
letter-word c h = ground (arith, h)

word-unquoted :
    (s : Text)
    → any (λ d. not (is_word_byte d)) s ≡ false
    → any (λ c. c == b'"' || c == 0) s ≡ false
unfolding any
word-unquoted [] h = refl
word-unquoted (c ∷ s) h = ground (arith, word_byte c, word-unquoted s)

pub is_sql_identifier-unquoted :
    (name : Text) → is_sql_identifier name ≡ true → any (λ c. c == b'"' || c == 0) name ≡ false
unfolding is_sql_identifier any
is_sql_identifier-unquoted [] h = refl
is_sql_identifier-unquoted (c ∷ s) h = ground (arith, word_byte c, letter-word c, word-unquoted s)

pub ok-same : {A : Type 0} {a b : A} → ok a ≡ ok b → a ≡ b
ok-same h = cc

module _ (sanitize : Sanitizer) (laws : IsSanitizer sanitize) where
  pub quote_sql_identifier-IsQuoted :
      (name : Text) {column : Text}
      → quote_sql_identifier sanitize name ≡ ok column
      → IsQuoted name column
  unfolding quote_sql_identifier validate_sql_identifier
  quote_sql_identifier-IsQuoted name {column} h =
      let r =
        bind-eq-ok (require (is_sql_identifier name) (plain bad_request)) (λ u. ok (sanitize name))
          h in
      let e = require-eq-ok (is_sql_identifier name) (plain bad_request) r.1 in
      (e, ground (arith, r.2, laws name (is_sql_identifier-unquoted name e)))

  -- A column that may be written: its name is given in the request, declared for the endpoint and
  -- not reserved.
  abbrev pub IsWritable : {V : Type 0} → List Text → Text × V → Text × V → Type 0
  IsWritable allowed given column =
      IsQuoted given.0 column.0
      × (column.1 ≡ given.1)
      × (contains_text (to_lower given.0) reserved_gateway_columns ≡ false)
      × (contains_text (to_lower given.0) allowed ≡ true)

  -- The columns of a list, one for each entry of the request, in its order.
  abbrev pub AreWritable : {V : Type 0} → List Text → List (Text × V) → List (Text × V) → Type 0
  AreWritable allowed [] [] = Unit
  AreWritable allowed [] (c ∷ cs) = ⊥
  AreWritable allowed (g ∷ gs) [] = ⊥
  AreWritable allowed (g ∷ gs) (c ∷ cs) = IsWritable allowed g c × AreWritable allowed gs cs

  pub checked_columns-AreWritable :
      {V : Type 0} (allowed : List Text) (input : List (Text × V)) {columns : List (Text × V)}
      → checked_columns sanitize allowed input ≡ ok columns
      → AreWritable allowed input columns
  unfolding checked_columns
  checked_columns-AreWritable allowed [] h = subst (AreWritable allowed []) (ok-same h) tt
  checked_columns-AreWritable allowed ((name, value) ∷ input) {columns} h =
      let a = bind-eq-ok (validate_sql_identifier name) _ h in
      let b =
        bind-eq-ok
          (require (not (contains_text (to_lower name) reserved_gateway_columns))
            (plain bad_request))
          _ a.2 in
      let c =
        bind-eq-ok (require (contains_text (to_lower name) allowed) (plain bad_request)) _ b.2 in
      let d = bind-eq-ok (quote_sql_identifier sanitize name) _ c.2 in
      let e = bind-eq-ok (checked_columns sanitize allowed input) _ d.2 in
      subst (AreWritable allowed ((name, value) ∷ input)) (ok-same e.2) (
        (
          quote_sql_identifier-IsQuoted name d.1,
          refl,
          ground (
            arith,
            require-eq-ok (not (contains_text (to_lower name) reserved_gateway_columns))
                (plain bad_request) b.1,
          ),
          require-eq-ok (contains_text (to_lower name) allowed) (plain bad_request) c.1,
        ),
        checked_columns-AreWritable allowed input e.1,
      )

  -- What authorizedColumns returns, where the driver puts a name without a double quote between
  -- double quotes: one column for each entry of the input in its order, quoted, of the safe
  -- grammar, declared for the endpoint and not reserved, with the value of the entry.
  pub authorized_columns-AreWritable :
      {V : Type 0} (input : List (Text × V)) (declared : List Text) {columns : List (Text × V)}
      → authorized_columns sanitize input declared ≡ ok columns
      → (allowed : List Text) × (allowed_columns declared ≡ ok allowed)
        × AreWritable allowed input columns
  unfolding authorized_columns
  authorized_columns-AreWritable input declared h =
      let a =
        bind-eq-ok (allowed_columns declared) (λ allowed. checked_columns sanitize allowed input)
          h in
      (a.0, a.1, checked_columns-AreWritable a.0 input a.2)
