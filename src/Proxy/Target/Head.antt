-- ===== src/Proxy/Target/Head.antt =====
-- proxy.rs, `read_request_head`: what is read is a bounded prefix of the stream.
use mathlib.Core.List.{append_assoc, reverse-append, reverse-cons, reverse-reverse}
use llmdevsilo.Prelude.{
  ℕ, ◌≤◌, ◌≡◌, refl, sym, ap, ◌∙◌, ◌⊎◌, inl, inr, true, [], ◌∷◌, ◌++◌, reverse, some, Text, arith,
  length, length-reverse, Bool-cases, ltb, starts_with_iff, nat_eq,
}
use llmdevsilo.Proxy.Target.{max_head, ends_head, head_loop, read_request_head}

-- The bytes of a head: a prefix of the stream, short enough, and at the end of the header block
-- unless the stream ended.
pub record IsHead (stream out : Text) : Type 0 where
  pub rest : Text
  pub whole : out ++ rest ≡ stream
  pub short : length out ≤ 65537
  pub closed : ((front : Text) × (out ≡ front ++ (13 ∷ 10 ∷ 13 ∷ 10 ∷ []))) ⊎ (rest ≡ [])

-- A buffer that ends a head ends with `\r\n\r\n`.
ends_head-closed :
    (out : Text)
    → ends_head (reverse out) ≡ true
    → (front : Text) × (out ≡ front ++ (13 ∷ 10 ∷ 13 ∷ 10 ∷ []))
unfolding ends_head
ends_head-closed out h =
    let (rest, e) = (starts_with_iff (reverse out) (10 ∷ 13 ∷ 10 ∷ 13 ∷ [])).0 h in
    (
      reverse rest,
      sym (reverse-reverse out) ∙ ap reverse e ∙ reverse-append (10 ∷ 13 ∷ 10 ∷ 13 ∷ []) rest,
    )

step :
    (rev : Text) (byte : ℕ) (bytes : Text)
    → reverse (byte ∷ rev) ++ bytes ≡ reverse rev ++ (byte ∷ bytes)
step rev byte bytes = simp (reverse-cons, append_assoc)

head_loop-IsHead :
    (rev bytes : Text) {out : Text}
    → length rev ≤ max_head
    → head_loop rev bytes ≡ some out
    → IsHead (reverse rev ++ bytes) out
unfolding head_loop
head_loop-IsHead rev [] {out = out} h e =
    let done : reverse rev ≡ out = cc in
    record {
      rest = [];
      whole = ap (λ s. s ++ []) (sym done);
      short = rw (← done, length-reverse rev) (omega arith);
      closed = inr refl;
    }
head_loop-IsHead rev (byte ∷ bytes) {out = out} h e = elim (Bool-cases (ends_head (byte ∷ rev))) [
  | inl ends ↦
      let done : reverse (byte ∷ rev) ≡ out = ground arith in
      record {
        rest = bytes;
        whole = sym (ap (λ s. s ++ bytes) done) ∙ step rev byte bytes;
        short = rw (← done, length-reverse (byte ∷ rev)) (omega arith);
        closed = inl (ends_head-closed out (rw (← done, reverse-reverse (byte ∷ rev)) ends));
      }
  | inr more ↦ elim (Bool-cases (ltb max_head (length (byte ∷ rev)))) [
    | inl long ↦ absurd (ground arith)
    | inr fits ↦
        rw (← step rev byte bytes)
          (head_loop-IsHead (byte ∷ rev) bytes (ground arith) (ground arith))
  ]
]

-- Whatever the peer sends, a head that is read is a prefix of it, of at most 64 KiB and one byte,
-- that ends with the bytes `\r\n\r\n` unless the stream ended there.
pub read_request_head-IsHead :
    (stream out : Text) → read_request_head stream ≡ some out → IsHead stream out
unfolding read_request_head
read_request_head-IsHead stream out e = head_loop-IsHead [] stream (omega arith) e
