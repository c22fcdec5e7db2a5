-- ===== src/Plans/Payments.antt =====
-- The readers of the JSON columns of a plan, src/modules/monthly-plans/monthly-plans.service.ts: a list of
-- payments, of custom expenses, and the record of bank balances. The zod schemas are the tests.
use pft_backend.Prelude.{Bool, true, false, not, ◌&&◌, ◌||◌, Option, none, some, [], if◌then◌else◌}
use pft_backend.Prelude.Int.{pos}
use pft_backend.Prelude.Value.{
  Number, fin, Value, Values, Fields, number, text, object, nil, cons, end, field, codes, get_field,
  to_number, or_default, as_array, as_object, stringify, trim_value, is_empty_text, empty_array,
  array_of_objects, all_values, is_filled_text, is_finite_number, is_finite,
}

abbrev pub id_of : Fields → Value
id_of row = get_field (codes "id") row

abbrev pub name_of : Fields → Value
name_of row = get_field (codes "name") row

abbrev pub amount_of : Fields → Value
amount_of row = get_field (codes "amount") row

abbrev passes : (Fields → Bool) → Option Fields → Bool
passes p none = false
passes p (some row) = p row

-- `loanPaymentSchema`, of loans and of goals
abbrev pub is_payment : Value → Bool
is_payment v =
    passes
      (λ row.
        is_filled_text (id_of row)
        && is_filled_text (name_of row)
        && is_finite_number (amount_of row))
      (as_object v)

-- `customExpenseSchema`
abbrev pub is_custom_expense : Value → Bool
is_custom_expense v =
    passes
      (λ row. is_filled_text (get_field (codes "label") row) && is_finite_number (amount_of row))
      (as_object v)

abbrev kept_if : Bool → Value → Value
kept_if true v = v
kept_if false v = empty_array

abbrev checked_array : (Value → Bool) → Value → Option Values → Value
checked_array p v none = empty_array
checked_array p v (some items) = kept_if (all_values p items) v

unfoldable pub normalize_loan_payments : Value → Value
normalize_loan_payments v = checked_array is_payment v (as_array v)

unfoldable pub normalize_custom_expenses : Value → Value
normalize_custom_expenses v = checked_array is_custom_expense v (as_array v)

abbrev pub payment : Value → Value → Number → Value
payment id name amount =
    object (
      field (codes "id") id
        (field (codes "name") name (field (codes "amount") (number amount) end)))

-- `parsed.data`: the fields of the schema, texts trimmed
abbrev parsed_fields : Fields → Value
parsed_fields row =
    payment (trim_value (id_of row)) (trim_value (name_of row)) (to_number (amount_of row))

abbrev parsed_item : Option Fields → Value → Value
parsed_item none v = v
parsed_item (some row) v = parsed_fields row

abbrev parsed_items : Values → Values
parsed_items nil = nil
parsed_items (cons v vs) = cons (parsed_item (as_object v) v) (parsed_items vs)

-- `String(v ?? '').trim()`
abbrev pub trimmed_text : Value → Value
trimmed_text v = trim_value (stringify (or_default v (text [] (fin (pos 0)))))

abbrev pub or_zero : Value → Number
or_zero v = to_number (or_default v (number (fin (pos 0))))

-- One round of the loop that coerces the items of a list that the schema refuses.
abbrev coerced_fields : Fields → Values → Values
coerced_fields row rest =
    let id = trimmed_text (id_of row) in
    let name = trimmed_text (name_of row) in
    let amount = or_zero (amount_of row) in
    if is_empty_text id || not (is_finite amount)
    then rest
    else cons (payment id (if is_empty_text name then id else name) amount) rest

abbrev coerced_item : Option Fields → Values → Values
coerced_item none rest = rest
coerced_item (some row) rest = coerced_fields row rest

abbrev coerced_items : Values → Values
coerced_items nil = nil
coerced_items (cons v vs) = coerced_item (as_object v) (coerced_items vs)

abbrev goal_payments_of : Option Values → Value
goal_payments_of none = empty_array
goal_payments_of (some items) =
    array_of_objects
      (if all_values is_payment items then parsed_items items else coerced_items items)

unfoldable pub normalize_goal_payments : Value → Value
normalize_goal_payments v = goal_payments_of (as_array v)

abbrev all_finite : Fields → Bool
all_finite end = true
all_finite (field k v fs) = is_finite_number v && all_finite fs

abbrev banks_of : Option Fields → Value → Value
banks_of none v = object end
banks_of (some fs) v = if all_finite fs then v else object end

-- `banksSchema`
unfoldable pub normalize_banks : Value → Value
normalize_banks v = banks_of (as_object v) v
