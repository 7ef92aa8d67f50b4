-- ===== src/Federation/Stream.antt =====
-- What a generator yields when it is read to its end: values, and then a stop or an exception.
use httk_data.Prelude.{List, [], ◌∷◌, Option, none, some}

pub data Stream (E A : Type 0) : Type 0 where
  stop : Stream E A
  raise : E → Stream E A
  yield_ : A → Stream E A → Stream E A

module _ {E A : Type 0} where
  abbrev pub of_list : List A → Stream E A
  of_list [] = stop
  of_list (x ∷ xs) = yield_ x (of_list xs)

  -- The values before the end, and the exception at the end.
  abbrev pub values : Stream E A → List A
  values stop = []
  values (raise e) = []
  values (yield_ x s) = x ∷ values s

  abbrev pub failure : Stream E A → Option E
  failure stop = none
  failure (raise e) = some e
  failure (yield_ x s) = failure s
