-- ===== src/Buffer/Chain.antt =====
-- The bytes that the chain of base/Buffer.cpp holds, in the order they are read in.
use hudp.Common.{
  ℕ, zero, suc, ◌+◌, ◌≡◌, ◌∙◌, refl, sym, ap₂, List, [], ◌∷◌, ◌++◌, length, length-append,
}
use hudp.LoopBuffer.{LoopBuffer}
use hudp.LoopBuffer.Contents.{IsWf, IsEmpty, contents, contents_empty, get_can_read_length-contents}
use hudp.Buffer.{can_read_nodes}

abbrev pub held : List LoopBuffer → ℕ → List ℕ
held [] write = []
held (b ∷ bs) zero = contents b
held (b ∷ bs) (suc write) = contents b ++ held bs write

-- Nodes that wait to be written to.
abbrev pub AllEmpty : List LoopBuffer → Type 0
AllEmpty [] = Unit
AllEmpty (b ∷ bs) = IsWf b × IsEmpty b × AllEmpty bs

-- Every node is well-formed, and those behind the one that is written to are empty.
abbrev pub IsValid : List LoopBuffer → ℕ → Type 0
IsValid [] write = Unit
IsValid (b ∷ bs) zero = IsWf b × AllEmpty bs
IsValid (b ∷ bs) (suc write) = IsWf b × IsValid bs write

pub AllEmpty-IsValid : (bs : List LoopBuffer) → AllEmpty bs → IsValid bs 0 × (held bs 0 ≡ [])
AllEmpty-IsValid [] h = (tt, refl)
AllEmpty-IsValid (b ∷ bs) (v, e, h) = ((v, h), contents_empty b e)

-- `GetCanReadLength` is the number of the bytes that are held.
pub can_read_nodes-held :
    (bs : List LoopBuffer) (write : ℕ)
    → IsValid bs write
    → can_read_nodes bs write ≡ length (held bs write)
unfolding can_read_nodes
can_read_nodes-held [] write v = refl
can_read_nodes-held (b ∷ bs) zero v = (get_can_read_length-contents b v.0).0
can_read_nodes-held (b ∷ bs) (suc write) v =
    ap₂ ◌+◌ (get_can_read_length-contents b v.0).0 (can_read_nodes-held bs write v.1)
    ∙ sym (length-append (contents b) (held bs write))
