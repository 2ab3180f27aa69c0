-- ===== src/Base/Decimal.antt =====
-- `str(n)` of a number, by recursion on the order of the numbers.
use Prim.Native.Nat.{ℕ, zero, suc, ◌/◌, ◌%◌, ◌<◌}
use Prim.Native.Char.{Char}
use Prim.Native.String.{String}
use mathlib.Core.Logic.{dite}
use mathlib.Core.Path.{◌≡◌, refl}
use mathlib.Core.WellFounded.{Acc}
use native.Mathlib.Decide.{dec_lt}
use native.Mathlib.Omega.{arith}

Acc_of_bound : (k n : ℕ) → n < k → Acc ◌<◌ n
Acc_of_bound zero n h = elim h [ ]
Acc_of_bound (suc k) n h = Acc.intro n (λ m hm. Acc_of_bound k m (omega arith))

digit : ℕ → Char
digit zero = "0"
digit (suc zero) = "1"
digit (suc (suc zero)) = "2"
digit (suc (suc (suc zero))) = "3"
digit (suc (suc (suc (suc zero)))) = "4"
digit (suc (suc (suc (suc (suc zero))))) = "5"
digit (suc (suc (suc (suc (suc (suc zero)))))) = "6"
digit (suc (suc (suc (suc (suc (suc (suc zero))))))) = "7"
digit (suc (suc (suc (suc (suc (suc (suc (suc zero)))))))) = "8"
digit n = "9"

decimal_acc : (n : ℕ) → Acc ◌<◌ n → String → String
decimal_acc n (Acc.intro _ smaller) rest =
    dite (dec_lt n 10) (λ _. String.◌∷◌ (digit n) rest)
      (λ h.
        decimal_acc (n / 10) (smaller (n / 10) (omega arith)) (String.◌∷◌ (digit (n % 10)) rest))

unfoldable pub decimal : ℕ → String
unfolding decimal_acc digit Acc_of_bound dec_lt
decimal n = decimal_acc n (Acc_of_bound (suc n) n (omega arith)) ""

decimal_test : decimal 2048 ≡ "2048"
unfolding decimal
decimal_test = refl
