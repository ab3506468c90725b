-- ===== src/Io/Pipe.antt =====
-- A connection in memory: what is still to be read, and what was written. It behaves as tokio
-- documents, so the hypotheses about connections can be met.
use dandelion.Prelude.{
  ℕ, ◌+◌, ◌*◌, ◌<◌, [], ◌∷◌, ◌++◌, true, ltb, leb, if◌then◌else◌, ◌≡◌, refl, sym, length, take,
  drop, take-append, drop-append, take-append-drop, length-append, length-take-le, append-nil,
  arith, ◌&&◌, inl, inr, Bool-cases,
}
use dandelion.Prelude.Exec.{ok, err, Exec}
use dandelion.Net.{Text}
use dandelion.Io.{IoError, unexpected_eof, other, Io, Wire, IsByteStream, ReportsSuccess}

pub record Ends : Type 0 where
  pub incoming : Text
  pub sent : Text

abbrev pub take_bytes : ℕ → Exec IoError Ends Text
take_bytes n p =
    if leb n (length p.incoming)
    then (ok (take n p.incoming), record p { incoming = drop n p.incoming })
    else (err unexpected_eof, record p { incoming = [] })

abbrev pub byte : Text → Exec IoError Ends ℕ
byte [] p = (err unexpected_eof, p)
byte (b ∷ bs) p = (if ltb b 256 then ok b else err other, record p { incoming = bs })

abbrev pub word : Text → Exec IoError Ends ℕ
word (h ∷ l ∷ bs) p =
    (if ltb h 256 && ltb l 256 then ok (h * 256 + l) else err other, record p { incoming = bs })
word _ p = (err unexpected_eof, record p { incoming = [] })

abbrev pub pipe : Io
pipe = record {
  State = Ends;
  read_exact = take_bytes;
  read_u8 = λ p. byte p.incoming p;
  read_u16 = λ p. word p.incoming p;
  write_all = λ bs p. (ok tt, record p { sent = p.sent ++ bs });
}

abbrev pub ends : Wire pipe
ends = record { incoming = λ p. p.incoming; sent = λ p. p.sent; IsOpen = λ p. Unit {0} }

take_bytes-ok :
    (bs rest : Text) (p : Ends)
    → p.incoming ≡ bs ++ rest
    → take_bytes (length bs) p ≡ (ok bs, record p { incoming = rest })
take_bytes-ok bs rest p e =
    let enough : leb (length bs) (length (bs ++ rest)) ≡ true =
      ground (arith, length-append bs rest) in
    rw (e, enough, take-append bs rest, drop-append bs rest) refl

pub pipe-IsByteStream : IsByteStream pipe ends
pipe-IsByteStream = record {
  read_exact-Talks = λ bs. record {
    at = λ p rest o e. (
      record p { incoming = rest },
      take_bytes-ok bs rest p e,
      tt,
      refl,
      sym (append-nil p.sent),
    );
  };
  read_u8-Talks = λ b h. record {
    at = λ p rest o e.
        (record p { incoming = rest }, rw e (ground arith), tt, refl, sym (append-nil p.sent));
  };
  read_u16-Talks = λ hi lo h l. record {
    at = λ p rest o e.
        (record p { incoming = rest }, rw e (ground arith), tt, refl, sym (append-nil p.sent));
  };
  write_all-Talks =
      λ bs. record { at = λ p rest o e. (record p { sent = p.sent ++ bs }, refl, tt, e, refl) };
}

take_bytes-Takes :
    (n : ℕ) (p p' : Ends) (bs : Text)
    → take_bytes n p ≡ (ok bs, p')
    → (p.incoming ≡ bs ++ p'.incoming) × (length bs ≡ n)
take_bytes-Takes n p p' bs ran = elim (Bool-cases (leb n (length p.incoming))) [
  | inl enough ↦
      let taken : take n p.incoming ≡ bs = ground arith in
      let left : drop n p.incoming ≡ p'.incoming = ground arith in
      (
        rw (← taken, ← left) (sym (take-append-drop n p.incoming)),
        rw (← taken) (length-take-le n p.incoming (ground arith)),
      )
  | inr short ↦ absurd (ground arith)
]

byte-Takes :
    (text : Text) (p p' : Ends) (b : ℕ)
    → byte text p ≡ (ok b, p')
    → (text ≡ b ∷ p'.incoming) × (b < 256)
byte-Takes [] p p' b ran = absurd (ground arith)
byte-Takes (c ∷ cs) p p' b ran = ground arith

word-Takes :
    (text : Text) (p p' : Ends) (n : ℕ)
    → word text p ≡ (ok n, p')
    → (hi : ℕ) × (lo : ℕ) × (text ≡ hi ∷ lo ∷ p'.incoming)
      × (hi < 256)
      × (lo < 256)
      × (n ≡ hi * 256 + lo)
word-Takes [] p p' n ran = absurd (ground arith)
word-Takes (h ∷ []) p p' n ran = absurd (ground arith)
word-Takes (h ∷ l ∷ bs) p p' n ran = (h, l, ground arith, ground arith, ground arith, ground arith)

pub pipe-ReportsSuccess : ReportsSuccess pipe ends
pipe-ReportsSuccess = record {
  read_exact-Takes = λ n. record {
    at = λ p p' bs ran.
        let (split, count) = take_bytes-Takes n p p' bs ran in (bs, split, (refl, count));
  };
  read_u8-Takes = record {
    at = λ p p' b ran.
        let (split, small) = byte-Takes p.incoming p p' b ran in (b ∷ [], split, (refl, small));
  };
  read_u16-Takes = record {
    at = λ p p' n ran.
        let (hi, lo, split, h, l, value) = word-Takes p.incoming p p' n ran in
        (hi ∷ lo ∷ [], split, (hi, lo, refl, h, l, value));
  };
  write_all-Takes = λ bs. record { at = λ p p' x ran. ([], ground arith, refl) };
}
