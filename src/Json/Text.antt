-- ===== src/Json/Text.antt =====
-- JavaScript's `String(value)`, which property names and `RegExp.prototype.test` apply.
use Prim.Native.String
use repo_assessment_kit.Prelude.{
  ℕ, zero, suc, ◌+◌, ◌/◌, ◌%◌, String, true, false, ltb, if◌then◌else◌,
}
use repo_assessment_kit.Json.{
  Number, natural, negative, other, Value, undefined, null, bool, num, str, arr, obj, Items,
  no_items, item,
}

unfoldable pub digit : ℕ → String
digit zero = "0"
digit (suc zero) = "1"
digit (suc (suc zero)) = "2"
digit (suc (suc (suc zero))) = "3"
digit (suc (suc (suc (suc zero)))) = "4"
digit (suc (suc (suc (suc (suc zero))))) = "5"
digit (suc (suc (suc (suc (suc (suc zero)))))) = "6"
digit (suc (suc (suc (suc (suc (suc (suc zero))))))) = "7"
digit (suc (suc (suc (suc (suc (suc (suc (suc zero)))))))) = "8"
digit _ = "9"

-- The decimal digits of `n` before `rest`; `fuel` above `n` is enough, since `n / 10` is below `n`.
unfoldable pub decimal_from : ℕ → ℕ → String → String
unfolding digit
decimal_from zero n rest = rest
decimal_from (suc fuel) n rest =
    let longer = String.◌++◌ (digit (n % 10)) rest in
    let more = decimal_from fuel (n / 10) longer in if ltb n 10 then longer else more

unfoldable pub decimal : ℕ → String
unfolding digit decimal_from
decimal n = decimal_from (suc n) n ""

unfoldable pub number_text : Number → String
unfolding decimal
number_text (natural n) = decimal n
number_text (negative n) = String.◌++◌ "-" (decimal (n + 1))
number_text (other s) = s

-- `join` prints `undefined` and `null` as nothing.
abbrev item_text : Value → String → String
item_text undefined text = ""
item_text null text = ""
item_text v text = text

unfoldable mutual
  unfolding number_text

  pub to_text : Value → String
  to_text undefined = "undefined"
  to_text null = "null"
  to_text (bool true) = "true"
  to_text (bool false) = "false"
  to_text (num n) = number_text n
  to_text (str s) = s
  to_text (arr vs) = join vs
  to_text (obj fs) = "[object Object]"

  -- `Array.prototype.join` with a comma.
  pub join : Items → String
  join no_items = ""
  join (item v no_items) = item_text v (to_text v)
  join (item v (item w vs)) =
      String.◌++◌ (item_text v (to_text v)) (String.◌++◌ "," (join (item w vs)))
