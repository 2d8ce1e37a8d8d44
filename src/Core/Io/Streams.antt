-- ===== src/Core/Io/Streams.antt =====
-- neo/Core/IO: one write or read after another.
use neo_python.Core.Io.BinaryWriter.{write_byte}
use neo_python.Prelude.{
  List, Option, [], if◌then◌else◌, none, some, suc, zero, ℕ, ◌++◌, ◌-◌, ◌==◌, ◌^◌, ◌∷◌,
}

infixr 5 ◌&◌
-- What two writes append, one after the other: an exception of the first leaves out the second.
unfoldable pub ◌&◌ : Option (List ℕ) → Option (List ℕ) → Option (List ℕ)
none & w = none
some bytes & none = none
some bytes & some more = some (bytes ++ more)

-- A loop of writes.
unfoldable pub write_all : {A : Type 0} → (A → Option (List ℕ)) → List A → Option (List ℕ)
write_all write [] = some []
write_all write (a ∷ items) = write a & write_all write items

-- A method of a reader, over what is left of the stream.
abbrev pub Reader : Type 0 → Type 0
Reader A = List ℕ → Option (A × List ℕ)

unfoldable pub result : {A : Type 0} → A → Reader A
result a s = some (a, s)

infixr 4 ◌▷◌
-- What is read next, with the value read first.
unfoldable pub ◌▷◌ : {A B : Type 0} → Reader A → (A → Reader B) → Reader B
◌▷◌ read next s = elim (read s) [ none ↦ none | some (a, rest) ↦ next a rest ]

-- A loop of reads, as many as a number says.
unfoldable pub read_many : {A : Type 0} → Reader A → ℕ → Reader (List A)
read_many read zero = result []
read_many read (suc n) = read ▷ λ a. read_many read n ▷ λ items. result (a ∷ items)

-- `sys.maxsize`, what a length may be at most where a reader is given no maximum.
abbrev pub maxsize : ℕ
maxsize = 2 ^ 63 - 1

-- StateBase.Serialize and StateBase.Deserialize: the version of a state is 0, and a state of another one
-- is refused.
abbrev pub write_version : Option (List ℕ)
write_version = write_byte 0

unfoldable pub read_version : Reader ℕ
read_version [] = none
read_version (sv ∷ s) = if sv == 0 then some (sv, s) else none
