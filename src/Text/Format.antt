-- ===== src/Text/Format.antt =====
-- The verbs of `fmt.Sprintf` that the program uses.
use Prim.Native.Nat.{◌/◌}
use devflow_service.Base.{
  Bool, List, [], false, if◌then◌else◌, ltb, suc, true, zero, ℕ, ◌%◌, ◌++◌, ◌+◌, ◌∷◌,
}
use devflow_service.Text.{Text, codes}

-- The last `places` digits of a number, without zeros in front.
unfoldable pub decimal : ℕ → ℕ → Text
decimal zero n = []
decimal (suc places) n =
    let front = decimal places (n / 10) in
    if ltb n 10 then (b'0' + n) ∷ [] else front ++ ((b'0' + n % 10) ∷ [])

-- `%d` of an `int32` that is not negative, which has at most ten digits.
unfoldable pub digits : ℕ → Text
unfolding decimal
digits n = decimal 10 n

-- `%t`.
abbrev pub bool_text : Bool → Text
bool_text true = codes "true"
bool_text false = codes "false"

-- `strings.Join`.
unfoldable pub join_texts : Text → List Text → Text
join_texts separator [] = []
join_texts separator (s ∷ texts) =
    let rest = join_texts separator texts in
    elim texts [ [] ↦ s | t ∷ more ↦ s ++ (separator ++ rest) ]
