-- ===== src/OutputFile/Budget.antt =====
-- The budget that stdout and stderr share in internal/outputfile/truncate_writer.go.
use letts.Prelude.{
  inr, if_cases, ap, none, inl, Bool-cases, some, Option, ◌==◌, ltb, sym, refl, ◌∙◌, ◌++◌, [], zero,
  length-append, ◌∷◌, if◌then◌else◌, ◌+◌, suc, ◌-◌, ◌≡◌, arith, false, ◌≤◌, take, length, true,
  List, Bool, ℕ,
}
use letts.OutputFile.{
  Written, write_chunk, mark, Outcomes, is_truncated, writes, new_writer, write, TruncateWriter,
}
use mathlib.Core.Path.{subst}

length-take : (n : ℕ) (xs : List ℕ) → length (take n xs) ≤ n
length-take zero xs = omega arith
length-take (suc n) [] = omega arith
length-take (suc n) (x ∷ xs) = omega (arith, length-take n xs)

-- a file of which `stored` are the bytes of chunks: a side that is truncated has a marker behind
-- them, or the part of it that was stored, and one that is not has nothing else
abbrev pub Holds : List ℕ → Bool → List ℕ → List ℕ → Type 0
Holds marker true stored file = (k : ℕ) × (file ≡ stored ++ take k marker)
Holds marker false stored file = file ≡ stored

-- the bytes that a failing write has left
abbrev pub torn : Option ℕ → ℕ
torn none = 0
torn (some n) = n

abbrev pub torn_total : List (Outcomes × Bool × List ℕ) → ℕ
torn_total [] = 0
torn_total ((io, is_stderr, p) ∷ ps) = torn io.chunk_fails + torn_total ps

lost_sum : (a b c : ℕ) → a + b + c ≡ a + (b + c)
lost_sum a b c = omega arith

-- `out` and `err` are the chunks of the two files, of which failed writes have left `lost` bytes
record Within (marker : List ℕ) (lost : ℕ) (t : TruncateWriter) : Type 0 where
  out : List ℕ
  err : List ℕ
  budget : t.current ≤ t.limit
  stored : length out + length err ≤ t.current + lost
  out_file : Holds marker t.trunc_std out t.stdout
  err_file : Holds marker t.trunc_err err t.stderr

fresh :
    (marker : List ℕ) (limit : ℕ) (comb : Option (List (Bool × List ℕ)))
    → Within marker 0 (new_writer limit comb)
unfolding new_writer
fresh marker limit comb = record {
  out = [];
  err = [];
  budget = omega arith;
  stored = omega arith;
  out_file = refl;
  err_file = refl;
}

module _ (marker : List ℕ) where
  clean : (b : Bool) (stored file : List ℕ) → b ≡ false → Holds marker b stored file → file ≡ stored
  clean b stored file op h = subst (λ c. Holds marker c stored file) op h

  more_lost : (lost n : ℕ) (t : TruncateWriter) → Within marker lost t → Within marker (lost + n) t
  more_lost lost n t h = record {
    out = h.out;
    err = h.err;
    budget = h.budget;
    stored = omega (arith, h.stored);
    out_file = h.out_file;
    err_file = h.err_file;
  }

  mark-Within :
      (io : Outcomes) (is_stderr : Bool) (t : TruncateWriter) (lost : ℕ)
      → is_truncated is_stderr t ≡ false
      → Within marker lost t
      → Within marker lost (mark marker io is_stderr t)
  mark-Within io true t lost op h = record {
    out = h.out;
    err = h.err;
    budget = h.budget;
    stored = h.stored;
    err_file = (
      io.marker_stored,
      ap (λ x. x ++ take io.marker_stored marker) (clean t.trunc_err h.err t.stderr op h.err_file),
    );
    out_file = h.out_file;
  }
  mark-Within io false t lost op h = record {
    out = h.out;
    err = h.err;
    budget = h.budget;
    stored = h.stored;
    out_file = (
      io.marker_stored,
      ap (λ x. x ++ take io.marker_stored marker) (clean t.trunc_std h.out t.stdout op h.out_file),
    );
    err_file = h.err_file;
  }

  write_chunk-Within :
      (io : Outcomes) (o : Option ℕ) (is_stderr : Bool) (len : ℕ) (clipped : Bool) (chunk : List ℕ)
      (t : TruncateWriter) (lost : ℕ)
      → length chunk ≤ t.limit - t.current
      → is_truncated is_stderr t ≡ false
      → Within marker lost t
      → Within marker (lost + torn o) (write_chunk marker io o is_stderr len clipped chunk t).1
  write_chunk-Within io (some n) true len clipped chunk t lost fits op h = record {
    err = h.err ++ take n chunk;
    out = h.out;
    budget = h.budget;
    stored = omega (arith, h.stored, length-take n chunk, length-append h.err (take n chunk));
    err_file =
        subst (λ b. Holds marker b (h.err ++ take n chunk) (t.stderr ++ take n chunk)) (sym op)
          (ap (λ x. x ++ take n chunk) (clean t.trunc_err h.err t.stderr op h.err_file));
    out_file = h.out_file;
  }
  write_chunk-Within io none true len clipped chunk t lost fits op h =
      let same = clean t.trunc_err h.err t.stderr op h.err_file in
      let grown = ap (λ x. x ++ chunk) same in
      let fit : length (h.err ++ chunk) + length h.out ≤ t.current + length chunk + (lost + 0) =
        omega (arith, h.stored, length-append h.err chunk) in
      if_cases (Within marker (lost + 0)) clipped _ _
        (λ c. record {
          err = h.err ++ chunk;
          out = h.out;
          budget = omega (arith, h.budget, fits);
          stored = omega (arith, fit);
          err_file = (io.marker_stored, ap (λ x. x ++ take io.marker_stored marker) grown);
          out_file = h.out_file;
        })
        (λ c. record {
          err = h.err ++ chunk;
          out = h.out;
          budget = omega (arith, h.budget, fits);
          stored = omega (arith, fit);
          err_file =
              subst (λ b. Holds marker b (h.err ++ chunk) (t.stderr ++ chunk)) (sym op) grown;
          out_file = h.out_file;
        })
  write_chunk-Within io (some n) false len clipped chunk t lost fits op h = record {
    out = h.out ++ take n chunk;
    err = h.err;
    budget = h.budget;
    stored = omega (arith, h.stored, length-take n chunk, length-append h.out (take n chunk));
    out_file =
        subst (λ b. Holds marker b (h.out ++ take n chunk) (t.stdout ++ take n chunk)) (sym op)
          (ap (λ x. x ++ take n chunk) (clean t.trunc_std h.out t.stdout op h.out_file));
    err_file = h.err_file;
  }
  write_chunk-Within io none false len clipped chunk t lost fits op h =
      let same = clean t.trunc_std h.out t.stdout op h.out_file in
      let grown = ap (λ x. x ++ chunk) same in
      let fit : length (h.out ++ chunk) + length h.err ≤ t.current + length chunk + (lost + 0) =
        omega (arith, h.stored, length-append h.out chunk) in
      if_cases (Within marker (lost + 0)) clipped _ _
        (λ c. record {
          out = h.out ++ chunk;
          err = h.err;
          budget = omega (arith, h.budget, fits);
          stored = omega (arith, fit);
          out_file = (io.marker_stored, ap (λ x. x ++ take io.marker_stored marker) grown);
          err_file = h.err_file;
        })
        (λ c. record {
          out = h.out ++ chunk;
          err = h.err;
          budget = omega (arith, h.budget, fits);
          stored = omega (arith, fit);
          out_file =
              subst (λ b. Holds marker b (h.out ++ chunk) (t.stdout ++ chunk)) (sym op) grown;
          err_file = h.err_file;
        })

  chunk_fits :
      (remaining : ℕ) (p : List ℕ)
      → length (if ltb remaining (length p) then take remaining p else p) ≤ remaining
  chunk_fits remaining p = elim (Bool-cases (ltb remaining (length p))) [
    | inl e ↦ rw e (length-take remaining p)
    | inr e ↦ rw e (ground arith)
  ]

  write-Within :
      (io : Outcomes) (is_stderr : Bool) (p : List ℕ) (t : TruncateWriter) (lost : ℕ)
      → Within marker lost t
      → Within marker (lost + torn io.chunk_fails) (write marker io is_stderr p t).1
  unfolding write
  write-Within io is_stderr p t lost h =
      let P : Written × TruncateWriter → Type 0 =
        λ r. Within marker (lost + torn io.chunk_fails) r.1 in
      let left = t.limit - t.current in
      if_cases P (is_truncated is_stderr t) _ _ (λ e. more_lost lost (torn io.chunk_fails) t h)
        (λ op.
          if_cases P (left == 0) _ _
            (λ e. more_lost lost (torn io.chunk_fails) _ (mark-Within io is_stderr t lost op h))
            (λ e.
              write_chunk-Within io io.chunk_fails is_stderr (length p) (ltb left (length p))
                (if ltb left (length p) then take left p else p) t lost (chunk_fits left p) op h))

  write_chunk-limit :
      (io : Outcomes) (o : Option ℕ) (is_stderr : Bool) (len : ℕ) (clipped : Bool) (chunk : List ℕ)
      (t : TruncateWriter)
      → (write_chunk marker io o is_stderr len clipped chunk t).1.limit ≡ t.limit
  write_chunk-limit io (some n) true len clipped chunk t = refl
  write_chunk-limit io (some n) false len clipped chunk t = refl
  write_chunk-limit io none true len clipped chunk t = ground arith
  write_chunk-limit io none false len clipped chunk t = ground arith

  write-limit :
      (io : Outcomes) (is_stderr : Bool) (p : List ℕ) (t : TruncateWriter)
      → (write marker io is_stderr p t).1.limit ≡ t.limit
  unfolding write
  write-limit io is_stderr p t =
      let left = t.limit - t.current in
      let chunk = if ltb left (length p) then take left p else p in
      ground (
        arith,
        write_chunk-limit io io.chunk_fails is_stderr (length p) (ltb left (length p)) chunk t,
      )

  writes-Within :
      (ps : List (Outcomes × Bool × List ℕ)) (t : TruncateWriter) (lost : ℕ)
      → Within marker lost t
      → Within marker (lost + torn_total ps) (writes marker ps t)
        × ((writes marker ps t).limit ≡ t.limit)
  unfolding writes
  writes-Within [] t lost h = (more_lost lost 0 t h, refl)
  writes-Within ((io, is_stderr, p) ∷ ps) t lost h =
      let (k, e) =
        writes-Within ps (write marker io is_stderr p t).1 (lost + torn io.chunk_fails)
          (write-Within io is_stderr p t lost h) in
      (
        subst (λ n. Within marker n (writes marker ps (write marker io is_stderr p t).1))
            (lost_sum lost (torn io.chunk_fails) (torn_total ps)) k,
        e ∙ write-limit io is_stderr p t,
      )

  -- Whatever is written to the two sides, in any order and with any failures, the bytes that the
  -- writer counts are within the limit. The files hold chunks, behind which a side that was truncated
  -- holds one marker, whole or in part, and the other nothing; these chunks are within the limit and
  -- the bytes that failing writes have left, which the writer does not count.
  pub writes-le-limit :
      (limit : ℕ) (comb : Option (List (Bool × List ℕ))) (ps : List (Outcomes × Bool × List ℕ))
      → let t = writes marker ps (new_writer limit comb) in
        (t.current ≤ limit)
        × ((out : List ℕ) × (err : List ℕ) × Holds marker t.trunc_std out t.stdout
            × Holds marker t.trunc_err err t.stderr
            × (length out + length err ≤ limit + torn_total ps))
  unfolding new_writer
  writes-le-limit limit comb ps =
      let (w, e) = writes-Within ps (new_writer limit comb) 0 (fresh marker limit comb) in
      (
        omega (arith, w.budget, e),
        (w.out, w.err, w.out_file, w.err_file, omega (arith, w.budget, w.stored, e)),
      )
