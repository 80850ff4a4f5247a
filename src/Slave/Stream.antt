-- ===== src/Slave/Stream.antt =====
-- What the socket delivers to the slave: a stream of bytes, cut into chunks anywhere.
use os2016spring.Base.{
  ℕ, zero, suc, ◌≤◌, ◌<◌, ◌≡◌, refl, true, List, [], ◌∷◌, ◌++◌, length, drop, All,
}
use os2016spring.Kernel.{Bytes, page_size, Call, History, received, Kernel}

-- How often the history has received.
abbrev pub receipts : History → ℕ
receipts [] = 0
receipts (Call.krecv _ _ ∷ h) = suc (receipts h)
receipts (_ ∷ h) = receipts h

-- The chunk at an index; behind the last one the connection is at its end.
abbrev pub chunk_at : List Bytes → ℕ → Bytes
chunk_at [] i = []
chunk_at (c ∷ cs) zero = c
chunk_at (c ∷ cs) (suc i) = chunk_at cs i

abbrev pub joined : List Bytes → Bytes
joined [] = []
joined (c ∷ cs) = c ++ joined cs

abbrev pub IsChunk : Bytes → Type 0
IsChunk c = (0 < length c) × (length c ≤ 4096)

-- The socket delivers the chunks in order, each call one of them, and then the end; the program's
-- memory can be written.
pub record Delivers (k : Kernel) (chunks : List Bytes) : Type 0 where
  pub answers : (h : History) → k.krecv h page_size ≡ received (chunk_at chunks (receipts h))
  pub copies : (h : History) → k.copy_to_user h ≡ true
  pub are_chunks : All IsChunk chunks

-- The chunk that comes next, from what is still to come.
pub chunk_at-drop : (i : ℕ) (chunks : List Bytes) → chunk_at chunks i ≡ chunk_at (drop i chunks) 0
chunk_at-drop zero [] = refl
chunk_at-drop zero (c ∷ cs) = refl
chunk_at-drop (suc i) [] = refl
chunk_at-drop (suc i) (c ∷ cs) = chunk_at-drop i cs

pub drop-suc :
    (i : ℕ) (chunks : List Bytes) (c : Bytes) (rest : List Bytes)
    → drop i chunks ≡ c ∷ rest
    → drop (suc i) chunks ≡ rest
drop-suc zero [] c rest e = absurd (cc)
drop-suc zero (x ∷ xs) c rest e = cc
drop-suc (suc i) [] c rest e = absurd (cc)
drop-suc (suc i) (x ∷ xs) c rest e = drop-suc i xs c rest e

pub All-drop :
    (P : Bytes → Type 0) (i : ℕ) (chunks : List Bytes) → All P chunks → All P (drop i chunks)
All-drop P zero chunks h = h
All-drop P (suc i) [] h = tt
All-drop P (suc i) (c ∷ cs) h = All-drop P i cs h.1
