-- ===== src/Gateway/Statements.antt =====
-- dynamic_handler.go: the SQL statements of the generic handler, and which of them a request runs.
use nim_near.Prelude.{
  ℕ, suc, ◌+◌, ℤ, pos, Bool, not, ◌||◌, Option, none, some, List, [], ◌∷◌, ◌++◌, ltb, ◌==◌,
  if◌then◌else◌, positive_part, Text, codes, text_eq, to_lower, is_empty, is_none, reverse, length,
  Result, err, plain, internal, or_fail,
}
use nim_near.Store.{Time}
use nim_near.Money.Decimal.{format_int}
use nim_near.Hub.Rooms.{Uuids, strip_prefix}

-- An argument of a statement. `given` is a value of the request body.
pub data Argument (V : Type 0) : Type 0 where
  uuid : ℕ → Argument V
  time : Time → Argument V
  number : ℤ → Argument V
  given : V → Argument V

pub record Statement (V : Type 0) : Type 0 where
  pub sql : Text
  pub arguments : List (Argument V)

-- model.Endpoint, with what json.Unmarshal reads of its schema: `table_name`, and the declared
-- fields.
pub record Endpoint : Type 0 where
  pub backend_service : Text
  pub backend_action : Text
  pub table_name : Option Text
  pub declared_fields : List Text

-- strings.TrimSuffix and strings.HasSuffix
abbrev pub has_suffix : Text → Text → Bool
has_suffix s suffix = not (is_none (strip_prefix (reverse suffix) (reverse s)))

abbrev pub or_whole : Text → Option Text → Text
or_whole s none = s
or_whole s (some rest) = reverse rest

unfoldable pub trim_suffix : Text → Text → Text
unfolding strip_prefix
trim_suffix s suffix = or_whole s (strip_prefix (reverse suffix) (reverse s))

abbrev pub pluralized : Text → Text
pluralized s = if has_suffix s (codes "s") then s else s ++ codes "s"

abbrev pub derived_table : Text → Text
derived_table service = pluralized (
    trim_suffix (trim_suffix (trim_suffix service (codes "-service")) (codes "-api"))
      (codes "-handler"))

unfoldable pub derive_table_name : Endpoint → Text
unfolding trim_suffix strip_prefix
derive_table_name e = elim e.table_name [
  | none ↦ derived_table e.backend_service
  | some name ↦ if is_empty name then derived_table e.backend_service else name
]

-- strings.Split(strings.Trim(path, "/"), "/")
abbrev pub more : ℕ → List Text → List Text
more c [] = (c ∷ []) ∷ []
more c (part ∷ parts) = (c ∷ part) ∷ parts

unfoldable pub split_slash : Text → List Text
split_slash [] = [] ∷ []
split_slash (c ∷ s) = let rest = split_slash s in if c == b'/' then [] ∷ rest else more c rest

unfoldable pub trim_slashes : Text → Text
trim_slashes [] = []
trim_slashes (c ∷ s) = if c == b'/' then trim_slashes s else c ∷ s

unfoldable pub path_parts : Text → List Text
unfolding trim_slashes split_slash
path_parts path = split_slash (reverse (trim_slashes (reverse (trim_slashes path))))

-- The loop of extractIDFromPath: the part after one that is the name, in any case. Its errors have
-- no status of their own, so that the handler answers 500.
unfoldable pub id_after : Uuids → Text → List Text → Result ℕ
unfolding to_lower text_eq
id_after uuids name [] = err (plain internal)
id_after uuids name (part ∷ []) = err (plain internal)
id_after uuids name (part ∷ next ∷ parts) =
    let rest = id_after uuids name (next ∷ parts) in
    if text_eq (to_lower part) (to_lower name)
    then or_fail (uuids.parse next) (plain internal)
    else rest

unfoldable pub extract_id_from_path : Uuids → Text → Text → Result ℕ
unfolding path_parts id_after trim_suffix
extract_id_from_path uuids path table =
    id_after uuids (trim_suffix table (codes "s")) (path_parts path)

unfoldable pub join : Text → List Text → Text
join separator [] = []
join separator (s ∷ []) = s
join separator (s ∷ t ∷ rest) = s ++ (separator ++ join separator (t ∷ rest))

-- fmt.Sprintf("$%d", n)
unfoldable pub placeholder : ℕ → Text
unfolding format_int
placeholder n = b'$' ∷ format_int n

module _ {V : Type 0} where
  unfoldable pub column_names : List (Text × V) → List Text
  column_names [] = []
  column_names ((column, value) ∷ rest) = column ∷ column_names rest

  unfoldable pub column_values : List (Text × V) → List (Argument V)
  column_values [] = []
  column_values ((column, value) ∷ rest) = given value ∷ column_values rest

-- `placeholders = append(placeholders, fmt.Sprintf("$%d", paramIndex)); paramIndex++`
unfoldable pub placeholders_from : {A : Type 0} → ℕ → List A → List Text
unfolding placeholder
placeholders_from n [] = []
placeholders_from n (x ∷ xs) = placeholder n ∷ placeholders_from (suc n) xs

-- `setParts = append(setParts, fmt.Sprintf("%s = $%d", column, paramIndex)); paramIndex++`
unfoldable pub assignments_from : ℕ → List Text → List Text
unfolding placeholder
assignments_from n [] = []
assignments_from n (c ∷ cs) = (c ++ (codes " = " ++ placeholder n)) ∷ assignments_from (suc n) cs

-- The limit of handleList; a parameter that is missing or not a number is 0.
abbrev pub list_limit : ℤ → ℕ
list_limit limit =
    if positive_part limit == 0 || ltb 100 (positive_part limit) then 20 else positive_part limit

module _ {V : Type 0} (table : Text) (org app : ℕ) where
  unfoldable pub count_statement : Statement V
  count_statement = record {
    sql =
        codes "SELECT COUNT(*) FROM "
        ++ (table ++ codes " WHERE organization_id = $1 AND app_id = $2");
    arguments = uuid org ∷ uuid app ∷ [];
  }

  unfoldable pub list_statement : ℤ → ℤ → Statement V
  list_statement limit offset = record {
    sql =
        codes "SELECT row_to_json(t.*) FROM "
        ++ (table
            ++ codes
                " t WHERE organization_id = $1 AND app_id = $2 ORDER BY created_at DESC LIMIT $3 OFFSET $4");
    arguments = uuid org ∷ uuid app ∷ number (pos (list_limit limit)) ∷ number offset ∷ [];
  }

  unfoldable pub get_statement : ℕ → Statement V
  get_statement id = record {
    sql =
        codes "SELECT row_to_json(t.*) FROM "
        ++ (table ++ codes " t WHERE id = $1 AND organization_id = $2 AND app_id = $3");
    arguments = uuid id ∷ uuid org ∷ uuid app ∷ [];
  }

  unfoldable pub delete_statement : ℕ → Statement V
  delete_statement id = record {
    sql =
        codes "DELETE FROM "
        ++ (table ++ codes " WHERE id = $1 AND organization_id = $2 AND app_id = $3");
    arguments = uuid id ∷ uuid org ∷ uuid app ∷ [];
  }

  unfoldable pub create_statement : ℕ → Time → List (Text × V) → Statement V
  unfolding join placeholders_from column_names column_values
  create_statement id now columns = record {
    sql =
        codes "INSERT INTO "
        ++ (table
            ++ (codes " ("
                ++ (join (codes ", ") (
                      codes "\"id\""
                      ∷ codes "\"organization_id\""
                      ∷ codes "\"app_id\""
                      ∷ codes "\"created_at\""
                      ∷ codes "\"updated_at\""
                      ∷ column_names columns)
                    ++ (codes ") VALUES ("
                        ++ (join (codes ", ") (
                              codes "$1"
                              ∷ codes "$2"
                              ∷ codes "$3"
                              ∷ codes "$4"
                              ∷ codes "$5"
                              ∷ placeholders_from 6 columns)
                            ++ (codes ") RETURNING row_to_json(" ++ (table ++ codes ".*)")))))));
    arguments = uuid id ∷ uuid org ∷ uuid app ∷ time now ∷ time now ∷ column_values columns;
  }

  -- paramIndex after the loop.
  abbrev pub param_index : List (Text × V) → ℕ
  param_index columns = 2 + length columns

  unfoldable pub update_statement : ℕ → Time → List (Text × V) → Statement V
  unfolding join assignments_from column_names column_values placeholder
  update_statement id now columns = record {
    sql =
        codes "UPDATE "
        ++ (table
            ++ (codes " SET "
                ++ (join (codes ", ")
                      (codes "\"updated_at\" = $1" ∷ assignments_from 2 (column_names columns))
                    ++ (codes " WHERE id = "
                        ++ (placeholder (param_index columns)
                            ++ (codes " AND organization_id = "
                                ++ (placeholder (param_index columns + 1)
                                    ++ (codes " AND app_id = "
                                        ++ (placeholder (param_index columns + 2)
                                            ++ (codes " RETURNING row_to_json("
                                                ++ (table ++ codes ".*)")))))))))));
    arguments = time now ∷ (column_values columns ++ (uuid id ∷ uuid org ∷ uuid app ∷ []));
  }
