-- ===== src/Gateway/Safe.antt =====
-- The shape of every statement that the generic handler runs: its table, its WHERE clause up to the
-- end of the statement, and the arguments of the placeholders in it.
use nim_near.Prelude.{
  ℕ, ℤ, zero, suc, ◌+◌, ◌≡◌, refl, sym, ◌∙◌, Some, ◌⊎◌, inl, inr, Option, none, some, List, [], ◌∷◌,
  ◌++◌, arith, Text, codes, length,
}
use nim_near.Store.{Time}
use nim_near.Money.Decimal.{format_int, digits}
use nim_near.Gateway.Statements.{
  Argument, uuid, time, Statement, placeholder, column_names, column_values, count_statement,
  list_statement, get_statement, delete_statement, create_statement, update_statement, join,
  assignments_from, placeholders_from,
}

-- `id = $k AND `, where a statement is about one row.
abbrev pub guarded : Option ℕ → Text → Text
guarded none rest = rest
guarded (some k) rest = codes "id = " ++ (placeholder k ++ (codes " AND " ++ rest))

-- The condition on the placeholders $n and $(n + 1).
abbrev pub scoped_by : ℕ → Text → Text
scoped_by n rest =
    codes "organization_id = "
    ++ (placeholder n ++ (codes " AND app_id = " ++ (placeholder (n + 1) ++ rest)))

-- What stands before the table.
abbrev pub verbs : List Text
verbs =
    codes "SELECT COUNT(*) FROM "
    ∷ codes "SELECT row_to_json(t.*) FROM "
    ∷ codes "DELETE FROM "
    ∷ codes "UPDATE "
    ∷ []

-- What stands after the condition: nothing, the page of a list, or the row that is returned.
abbrev pub endings : Text → List Text
endings table =
    []
    ∷ codes " ORDER BY created_at DESC LIMIT $3 OFFSET $4"
    ∷ (codes " RETURNING row_to_json(" ++ (table ++ codes ".*)"))
    ∷ []

-- The assignments of the columns that are written, and of the time.
abbrev pub assignments : List Text → Text
assignments names =
    codes " SET " ++ join (codes ", ") (codes "\"updated_at\" = $1" ∷ assignments_from 2 names)

module _ {V : Type 0} where
  -- The argument of the placeholder $n.
  unfoldable pub argument : ℕ → List (Argument V) → Option (Argument V)
  argument n [] = none
  argument zero (a ∷ rest) = none
  argument (suc zero) (a ∷ rest) = some a
  argument (suc (suc n)) (a ∷ rest) = argument (suc n) rest

  abbrev pub HasScope : ℕ → ℕ → ℕ → Statement V → Type 0
  HasScope org app n s =
      (argument n s.arguments ≡ some (uuid org)) × (argument (n + 1) s.arguments ≡ some (uuid app))

  -- The columns that a request writes: none, or those of a list that W allows.
  pub data IsSetting (W : List (Text × V) → Type 0) : Text → Type 0 where
    nothing : IsSetting W []
    alias : IsSetting W (codes " t")
    sets :
        (columns : List (Text × V)) → W columns → IsSetting W (assignments (column_names columns))

  -- A statement that selects, changes or deletes rows of the table, and its whole text: the WHERE
  -- clause asks for the organization and the app, and at most for an id that R allows besides, and
  -- nothing follows it that could widen it.
  pub record IsRestricted (W : List (Text × V) → Type 0) (R : ℕ → Type 0) (table : Text)
      (org app : ℕ) (s : Statement V) : Type 0 where
    pub verb : Text
    pub setting : Text
    pub guard : Option ℕ
    pub n : ℕ
    pub ending : Text
    pub is_verb : Some (λ v. v ≡ verb) verbs
    pub is_setting : IsSetting W setting
    pub is_ending : Some (λ t. t ≡ ending) (endings table)
    pub text :
        s.sql
        ≡ verb ++ (table ++ (setting ++ (codes " WHERE " ++ guarded guard (scoped_by n ending))))
    pub scope : HasScope org app n s
    pub one_row :
        (k : ℕ) → guard ≡ some k → (id : ℕ) × R id × (argument k s.arguments ≡ some (uuid id))

  -- A statement that inserts one row for the organization and the app, and its whole text.
  pub record IsInsert (W : List (Text × V) → Type 0) (table : Text) (org app : ℕ) (s : Statement V)
      : Type 0 where
    pub columns : List (Text × V)
    pub written : W columns
    pub text :
        s.sql
        ≡ codes "INSERT INTO "
          ++ (table
              ++ (codes " (\"id\", \"organization_id\", \"app_id\", "
                  ++ (join
                        (codes ", ")
                        (codes "\"created_at\"" ∷ codes "\"updated_at\"" ∷ column_names columns)
                      ++ (codes ") VALUES ($1, $2, $3, "
                          ++ (join
                                (codes ", ")
                                (codes "$4" ∷ codes "$5" ∷ placeholders_from 6 columns)
                              ++ (codes ") RETURNING row_to_json(" ++ (table ++ codes ".*)")))))))
    pub scope : HasScope org app 2 s

  abbrev pub IsScoped :
      (List (Text × V) → Type 0) → (ℕ → Type 0) → Text → ℕ → ℕ → Statement V → Type 0
  IsScoped W R table org app s = IsRestricted W R table org app s ⊎ IsInsert W table org app s

  module _ (W : List (Text × V) → Type 0) (R : ℕ → Type 0) (table : Text) (org app : ℕ) where
    pub count_statement-IsScoped : IsScoped W R table org app (count_statement table org app)
    unfolding count_statement argument placeholder format_int digits
    count_statement-IsScoped = inl (record {
      verb = codes "SELECT COUNT(*) FROM ";
      setting = [];
      guard = none;
      n = 1;
      ending = [];
      is_verb = inl refl;
      is_setting = nothing;
      is_ending = inl refl;
      text = refl;
      scope = (refl, refl);
      one_row = λ k e. cc;
    })

    pub list_statement-IsScoped :
        (limit offset : ℤ) → IsScoped W R table org app (list_statement table org app limit offset)
    unfolding list_statement argument placeholder format_int digits
    list_statement-IsScoped limit offset = inl (record {
      verb = codes "SELECT row_to_json(t.*) FROM ";
      setting = codes " t";
      guard = none;
      n = 1;
      ending = codes " ORDER BY created_at DESC LIMIT $3 OFFSET $4";
      is_verb = inr (inl refl);
      is_setting = alias;
      is_ending = inr (inl refl);
      text = refl;
      scope = (refl, refl);
      one_row = λ k e. cc;
    })

    first_argument :
        (id : ℕ) (rest : List (Argument V))
        → R id
        → (k : ℕ) → some 1 ≡ some k
        → (row : ℕ) × R row × (argument k (uuid id ∷ rest) ≡ some (uuid row))
    unfolding argument
    first_argument id rest r k e = (id, r, ground (arith, e))

    pub get_statement-IsScoped :
        (id : ℕ) → R id → IsScoped W R table org app (get_statement table org app id)
    unfolding get_statement argument placeholder format_int digits
    get_statement-IsScoped id r = inl (record {
      verb = codes "SELECT row_to_json(t.*) FROM ";
      setting = codes " t";
      guard = some 1;
      n = 2;
      ending = [];
      is_verb = inr (inl refl);
      is_setting = alias;
      is_ending = inl refl;
      text = refl;
      scope = (refl, refl);
      one_row = first_argument id (uuid org ∷ uuid app ∷ []) r;
    })

    pub delete_statement-IsScoped :
        (id : ℕ) → R id → IsScoped W R table org app (delete_statement table org app id)
    unfolding delete_statement argument placeholder format_int digits
    delete_statement-IsScoped id r = inl (record {
      verb = codes "DELETE FROM ";
      setting = [];
      guard = some 1;
      n = 2;
      ending = [];
      is_verb = inr (inr (inl refl));
      is_setting = nothing;
      is_ending = inl refl;
      text = refl;
      scope = (refl, refl);
      one_row = first_argument id (uuid org ∷ uuid app ∷ []) r;
    })

    pub create_statement-IsScoped :
        (id : ℕ) (now : Time) (columns : List (Text × V))
        → W columns
        → IsScoped W R table org app (create_statement table org app id now columns)
    unfolding create_statement argument join
    create_statement-IsScoped id now columns w =
        inr (record { columns = columns; written = w; text = refl; scope = (refl, refl) })

    -- The arguments after the columns of an UPDATE.
    argument-columns :
        (n : ℕ) (columns : List (Text × V)) (rest : List (Argument V))
        → argument (suc (length columns + n)) (column_values columns ++ rest)
          ≡ argument (suc n) rest
    unfolding argument column_values
    argument-columns n [] rest = let e : 0 + n ≡ n = omega arith in rw e refl
    argument-columns n ((name, value) ∷ columns) rest =
        let e : suc (length columns) + n ≡ suc (length columns + n) = omega arith in
        rw e (argument-columns n columns rest)

    module _ (id : ℕ) (now : Time) (columns : List (Text × V)) where
      -- The arguments of an UPDATE from the id on.
      late_argument :
          (n : ℕ)
          → argument
              (2 + length columns + n)
              (time now ∷ (column_values columns ++ (uuid id ∷ uuid org ∷ uuid app ∷ [])))
            ≡ argument (suc n) (uuid id ∷ uuid org ∷ uuid app ∷ [])
      unfolding argument
      late_argument n =
          let e : 2 + length columns + n ≡ suc (suc (length columns + n)) = omega arith in
          rw e (argument-columns n columns (uuid id ∷ uuid org ∷ uuid app ∷ []))

      pub update_statement-IsScoped :
          W columns
          → R id
          → IsScoped W R table org app (update_statement table org app id now columns)
      unfolding update_statement argument
      update_statement-IsScoped w r = inl (record {
        verb = codes "UPDATE ";
        setting = assignments (column_names columns);
        guard = some (2 + length columns);
        n = 2 + length columns + 1;
        ending = codes " RETURNING row_to_json(" ++ (table ++ codes ".*)");
        is_verb = inr (inr (inr (inl refl)));
        is_setting = sets columns w;
        is_ending = inr (inr (inl refl));
        text =
            let e : 2 + length columns + 2 ≡ 2 + length columns + 1 + 1 = omega arith in rw e refl;
        scope = (
          late_argument 1,
          (let e : 2 + length columns + 1 + 1 ≡ 2 + length columns + 2 = omega arith in
              rw e (late_argument 2)),
        );
        one_row = λ k e. (id, r, updated_row k e);
      })
        where
          same_some : {a b : ℕ} → some a ≡ some b → a ≡ b
          same_some e = cc

          found_row :
              (k : ℕ)
              → 2 + length columns + 0 ≡ k
              → argument k
                  (time now ∷ (column_values columns ++ (uuid id ∷ uuid org ∷ uuid app ∷ [])))
                ≡ some (uuid id)
          found_row k e = rw (sym e) (late_argument 0)

          updated_row :
              (k : ℕ)
              → some (2 + length columns) ≡ some k
              → argument k
                  (time now ∷ (column_values columns ++ (uuid id ∷ uuid org ∷ uuid app ∷ [])))
                ≡ some (uuid id)
          updated_row k e =
              let f : 2 + length columns + 0 ≡ 2 + length columns = omega arith in
              found_row k (f ∙ same_some e)
