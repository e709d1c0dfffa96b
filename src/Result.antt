-- ===== src/Result.antt =====
-- core/common/result.h: the error codes. A function that returns `Error` by value returns `Res`
-- here: `ok` with what it writes through its out-parameters, or `err` with its code. The message
-- of an `Error` is a diagnostic text that no code reads, and is left out.
use voland.Base.{Bool, true, false}

pub data Code : Type 0 where
  out_of_memory invalid_argument not_found io_error not_implemented : Code
  memory_fault not_contiguous encrypted_input already_exists : Code

pub data Res {ℓ} (A : Type ℓ) : Type ℓ where
  ok : A → Res A
  err : Code → Res A

-- `error_is_ok`
abbrev pub is_ok {ℓ} : {A : Type ℓ} → Res A → Bool
is_ok (ok a) = true
is_ok (err c) = false
