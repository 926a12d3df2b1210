-- ===== src/Deposit/Options.antt =====
-- The requests of backend/src/deposit/deposit-option.service.ts that write the tables of amounts and of
-- tenors. The two tables have the same columns but for one, `content`: the amount in hundredths, or the
-- number of months.
use kamorina.Base.{
  ℕ, String, Bool, true, not, ◌&&◌, Option, none, some, List, [], ◌∷◌, ◌++◌, map, any, find,
  is_some, ◌==◌, str_eq, truthy, if◌then◌else◌, Result, ok, ◌>>◌, throw_if,
}
use kamorina.Deposit.Application.{AmountOption, TenorOption, Options}

pub record OptionRow : Type 0 where
  pub id : ℕ
  pub code : String
  pub label : String
  pub content : ℕ
  pub is_active : Bool
  pub sort_order : ℕ

pub record CreateOptionDto : Type 0 where
  pub code : String
  pub label : String
  pub content : ℕ
  pub is_active : Option Bool
  pub sort_order : Option ℕ

pub record UpdateOptionDto : Type 0 where
  pub code : Option String
  pub label : Option String
  pub content : Option ℕ
  pub is_active : Option Bool
  pub sort_order : Option ℕ

pub data OptionError : Type 0 where
  option_not_found code_exists : OptionError

-- `a ?? b`, and what an update leaves of a column that is not given.
abbrev pub given_or : {A : Type 0} → Option A → A → A
given_or none a = a
given_or (some b) a = b

abbrev pub has_code : String → OptionRow → Bool
has_code code row = str_eq row.code code

-- `findUnique` by the code.
abbrev pub find_by_code : String → List OptionRow → Option OptionRow
find_by_code code = find (has_code code)

abbrev pub new_option : ℕ → CreateOptionDto → OptionRow
new_option new_id dto = record {
  id = new_id;
  code = dto.code;
  label = dto.label;
  content = dto.content;
  is_active = given_or dto.is_active true;
  sort_order = given_or dto.sort_order 0;
}

unfoldable pub create_option :
    ℕ → CreateOptionDto → List OptionRow → Result OptionError (List OptionRow)
create_option new_id dto rows = do
  throw_if (is_some (find_by_code dto.code rows)) code_exists
  ok (rows ++ new_option new_id dto ∷ [])

-- `findFirst` for another row with the code.
abbrev pub other_has : ℕ → String → List OptionRow → Bool
other_has id code = any (λ row. has_code code row && not (row.id == id))

abbrev pub write_option : UpdateOptionDto → OptionRow → OptionRow
write_option dto row = record row {
  code = given_or dto.code row.code;
  label = given_or dto.label row.label;
  content = given_or dto.content row.content;
  is_active = given_or dto.is_active row.is_active;
  sort_order = given_or dto.sort_order row.sort_order;
}

abbrev pub check_code : ℕ → Option String → List OptionRow → Bool
check_code id none rows = true
check_code id (some code) rows = not (truthy (some code) && other_has id code rows)

unfoldable pub update_option :
    ℕ → UpdateOptionDto → List OptionRow → Result OptionError (List OptionRow)
update_option id dto rows = do
  throw_if (not (any (λ row. row.id == id) rows)) option_not_found
  throw_if (not (check_code id dto.code rows)) code_exists
  ok (map (λ row. if row.id == id then write_option dto row else row) rows)

-- `delete` by the id.
abbrev pub without : ℕ → List OptionRow → List OptionRow
without id [] = []
without id (row ∷ rows) = if row.id == id then without id rows else row ∷ without id rows

unfoldable pub delete_option : ℕ → List OptionRow → Result OptionError (List OptionRow)
delete_option id rows = do
  throw_if (not (any (λ row. row.id == id) rows)) option_not_found
  ok (without id rows)

-- The tables as the requests for a deposit read them.
abbrev amount_of : Option OptionRow → Option AmountOption
amount_of none = none
amount_of (some row) = some (record { amount = row.content; is_active = row.is_active })

abbrev tenor_of : Option OptionRow → Option TenorOption
tenor_of none = none
tenor_of (some row) = some (record { months = row.content; is_active = row.is_active })

abbrev pub tables : List OptionRow → List OptionRow → Options
tables amounts tenors = record {
  amount_option = λ code. amount_of (find_by_code code amounts);
  tenor_option = λ code. tenor_of (find_by_code code tenors);
}

-- The same requests on the tenors.
abbrev pub create_tenor_option :
    ℕ → CreateOptionDto → List OptionRow → Result OptionError (List OptionRow)
create_tenor_option = create_option

abbrev pub update_tenor_option :
    ℕ → UpdateOptionDto → List OptionRow → Result OptionError (List OptionRow)
update_tenor_option = update_option

abbrev pub delete_tenor_option : ℕ → List OptionRow → Result OptionError (List OptionRow)
delete_tenor_option = delete_option
