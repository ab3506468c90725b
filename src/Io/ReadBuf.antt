-- ===== src/Io/ReadBuf.antt =====
-- tokio's `AsyncReadExt::read_buf` on a connection: it gives what has arrived, and nothing only at
-- the end. What tokio documents of it is a record of hypotheses.
use dandelion.Prelude.{ℕ, [], ◌∷◌, ◌≡◌, ◌≢◌, refl, sym, take, drop, take-append-drop, arith}
use dandelion.Prelude.Exec.{ok, Exec}
use dandelion.Net.{Text}
use dandelion.Io.{IoError, Io, Wire, Takes}
use dandelion.Io.Pipe.{Ends, pipe, ends}

abbrev pub ReadBuf : Io → Type 0
ReadBuf io = Exec IoError io.State Text

pub record IsReadBuf (io : Io) (w : Wire io) (read_buf : ReadBuf io) : Type 0 where
  -- what it reports is what it took
  pub read_buf-Takes : Takes io w read_buf (λ bs taken. taken ≡ bs)
  -- nothing is reported only at the end
  pub read_buf-end : (s s' : io.State) → read_buf s ≡ (ok [], s') → w.incoming s ≡ []
  -- on an open connection with bytes to come it reports some
  pub read_buf-some :
      (s : io.State)
      → w.IsOpen s
      → w.incoming s ≢ []
      → (b : ℕ) × (bs : Text) × (s' : io.State) × (read_buf s ≡ (ok (b ∷ bs), s'))
        × w.IsOpen s'
        × (w.sent s' ≡ w.sent s)

-- The pipe's: at most four bytes at once.
abbrev pub read_four : ReadBuf pipe
read_four p = (ok (take 4 p.incoming), record p { incoming = drop 4 p.incoming })

read_four-some :
    (text : Text) (p : Ends)
    → text ≡ p.incoming
    → text ≢ []
    → (b : ℕ) × (bs : Text) × (s' : Ends) × (read_four p ≡ (ok (b ∷ bs), s'))
      × Unit {0}
      × (s'.sent ≡ p.sent)
read_four-some [] p e ne = absurd (ne refl)
read_four-some (b ∷ text) p e ne =
    (b, take 3 text, record p { incoming = drop 3 text }, rw (← e) refl, tt, refl)

read_four-end : (text : Text) → take 4 text ≡ [] → text ≡ []
read_four-end [] e = refl
read_four-end (b ∷ text) e = absurd (ground arith)

pub read_four-IsReadBuf : IsReadBuf pipe ends read_four
read_four-IsReadBuf = record {
  read_buf-Takes = record {
    at = λ p p' bs ran.
        let taken : take 4 p.incoming ≡ bs = ground arith in
        let left : drop 4 p.incoming ≡ p'.incoming = ground arith in
        (bs, rw (← taken, ← left) (sym (take-append-drop 4 p.incoming)), refl);
  };
  read_buf-end = λ p p' ran. read_four-end p.incoming (ground arith);
  read_buf-some = λ p o ne. read_four-some p.incoming p refl ne;
}
