-- ===== src/Settings/Payments.antt =====
-- `normalizeGoalPayments` of src/modules/settings/settings.service.ts.
use pft_backend.Prelude.{not, ◌||◌, Option, none, some, List, [], ◌∷◌, if◌then◌else◌}
use pft_backend.Prelude.Int.{ℤ, pos}
use pft_backend.Prelude.Action.{Result, ok, err}
use pft_backend.Prelude.Value.{
  Text, Number, fin, nan, infinity, neg_infinity, Value, Values, Fields, text, nil, cons, codes,
  trim, is_empty, is_finite, is_negative, to_number, get_field, as_array, as_object,
}
use pft_backend.Errors.{Error, bad_goal_payments, bad_goal_payment}
use pft_backend.Settings.Tables.{GoalPayment}

-- A finite number, 0 for another.
abbrev pub finite_or_zero : Number → ℤ
finite_or_zero (fin z) = z
finite_or_zero nan = pos 0
finite_or_zero infinity = pos 0
finite_or_zero neg_infinity = pos 0

-- `typeof v === 'string' ? v.trim() : ''`
abbrev pub trimmed_or_empty : Value → Text
trimmed_or_empty (text s n) = trim s
trimmed_or_empty v = []

abbrev checked_payment : Text → Text → Number → Result Error GoalPayment
checked_payment id name amount =
    if is_empty id || is_empty name || not (is_finite amount) || is_negative amount
    then err bad_goal_payment
    else ok (record { id = id; name = name; amount = finite_or_zero amount })

abbrev payment_of : Option Fields → Result Error GoalPayment
payment_of none = err bad_goal_payment
payment_of (some row) =
    checked_payment (trimmed_or_empty (get_field (codes "id") row))
      (trimmed_or_empty (get_field (codes "name") row)) (to_number (get_field (codes "amount") row))

abbrev add_payment :
    Result Error GoalPayment → Result Error (List GoalPayment) → Result Error (List GoalPayment)
add_payment (err e) rest = err e
add_payment (ok p) (err e) = err e
add_payment (ok p) (ok ps) = ok (p ∷ ps)

unfoldable pub payments_of : Values → Result Error (List GoalPayment)
payments_of nil = ok []
payments_of (cons v vs) = add_payment (payment_of (as_object v)) (payments_of vs)

abbrev payments_of_array : Option Values → Result Error (List GoalPayment)
payments_of_array none = err bad_goal_payments
payments_of_array (some items) = payments_of items

unfoldable pub normalize_goal_payments : Value → Result Error (List GoalPayment)
normalize_goal_payments value = payments_of_array (as_array value)
