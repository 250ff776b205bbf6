-- ===== src/Queue/Deque.antt =====
-- The abstract queue: a list with both ends, and what a client sees of each call.
use php.Prelude.{◌+◌, ◌≡◌, refl, ap, Option, none, some, List, [], ◌∷◌, ◌++◌, length}
use php.Prelude.Int.{ℤ, pos}
use php.Bytes.{Bytes}

pub data Op : Type 0 where
  push_front push_back : Bytes → Op
  pop_front pop_back : Op

-- The result of a push, or that of a pop with its output.
pub data Reply : Type 0 where
  pushed : ℤ → Reply
  popped : ℤ × Option Bytes → Reply

-- The items before the last one, and the last one.
abbrev pub split_last : Bytes → List Bytes → List Bytes × Bytes
split_last x [] = ([], x)
split_last x (y ∷ ys) = let (init, last) = split_last y ys in (x ∷ init, last)

abbrev pub step : List Bytes → Op → Reply × List Bytes
step xs (push_front a) = (pushed (pos (length xs + 1)), a ∷ xs)
step xs (push_back a) = (pushed (pos (length xs + 1)), xs ++ a ∷ [])
step [] pop_front = (popped (pos 0, none), [])
step (x ∷ xs) pop_front = (popped (pos 1, some x), xs)
step [] pop_back = (popped (pos 0, none), [])
step (x ∷ xs) pop_back = let (init, last) = split_last x xs in (popped (pos 1, some last), init)

unfoldable pub run : List Bytes → List Op → List Reply
run xs [] = []
run xs (op ∷ ops) = let (r, ys) = step xs op in r ∷ run ys ops

pub split_last-append :
    (x : Bytes) (xs : List Bytes) → let (init, last) = split_last x xs in x ∷ xs ≡ init ++ last ∷ []
split_last-append x [] = refl
split_last-append x (y ∷ ys) = ap (λ l. x ∷ l) (split_last-append y ys)
