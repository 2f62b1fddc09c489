-- ===== src/Streams/Jsonl/Reading.antt =====
-- What a file of lines reads as.
use iso26430_6_asm_prototype.Base.{
  ℕ, ◌+◌, ◌≡◌, refl, ◌∙◌, sym, ap, ◌⊎◌, inl, inr, String, List, [], ◌∷◌, ◌++◌, append-nil,
  append_assoc, arith, length, Result, ok, err, Result-cases, Text,
}
use iso26430_6_asm_prototype.Streams.{lines_of}
use iso26430_6_asm_prototype.Streams.Jsonl.{at_line, read_loop, read_jsonl}

module _ {A : Type 0} (parse : Text → Result A) where
  -- The records are those of the lines that are not empty, in their order.
  unfoldable pub Reads : List Text → List A → Type 0
  Reads [] xs = xs ≡ []
  Reads ([] ∷ lines) xs = Reads lines xs
  Reads ((c ∷ line) ∷ lines) xs =
      (x : A) × (ys : List A) × (xs ≡ x ∷ ys) × (parse (c ∷ line) ≡ ok x) × Reads lines ys

  -- The first line that does not parse, behind lines that do.
  pub record FailsAt (lines : List Text) (number : ℕ) (what : String) : Type 0 where
    pub front : List Text
    pub bad : Text
    pub back : List Text
    pub read : List A
    pub splits : lines ≡ front ++ (bad ∷ back)
    pub parsed : Reads front read
    pub refused : parse bad ≡ err what
    pub number_is : number ≡ length front + 1

module _ {A : Type 0} (prefix : String) (parse : Text → Result A) where
  abbrev Outcome : ℕ → List Text → List A → Type 0
  Outcome n lines out =
      ((xs : List A) × (read_loop prefix parse n lines out ≡ ok (out ++ xs)) × Reads parse lines xs)
      ⊎ ((number : ℕ) × (what : String) × (read_loop prefix parse n lines out
            ≡ err (at_line prefix (n + number) what))
          × FailsAt parse lines number what)

  empty_line :
      (n : ℕ) (lines : List Text) (out : List A)
      → Outcome (n + 1) lines out
      → Outcome n ([] ∷ lines) out
  unfolding read_loop Reads
  empty_line n lines out (inl (xs, e, r)) = inl (xs, e, r)
  empty_line n lines out (inr (number, what, e, f)) =
      let same : n + 1 + number ≡ n + (number + 1) = omega arith in
      inr (
        number + 1,
        what,
        rw (← same) e,
        record {
          front = [] ∷ f.front;
          bad = f.bad;
          back = f.back;
          read = f.read;
          splits = ap (◌∷◌ []) f.splits;
          parsed = f.parsed;
          refused = f.refused;
          number_is = omega (arith, f.number_is);
        },
      )

  parsed_line :
      (n c : ℕ) (line : Text) (lines : List Text) (out : List A) (x : A)
      → parse (c ∷ line) ≡ ok x
      → Outcome (n + 1) lines (out ++ (x ∷ []))
      → Outcome n ((c ∷ line) ∷ lines) out
  unfolding read_loop Reads
  parsed_line n c line lines out x p (inl (xs, e, r)) =
      inl
        (x ∷ xs, rw (read_loop, p) (e ∙ ap ok (append_assoc out (x ∷ []) xs)), (x, xs, refl, p, r))
  parsed_line n c line lines out x p (inr (number, what, e, f)) =
      let same : n + 1 + number ≡ n + (number + 1) = omega arith in
      inr (
        number + 1,
        what,
        rw (read_loop, p, ← same) e,
        record {
          front = (c ∷ line) ∷ f.front;
          bad = f.bad;
          back = f.back;
          read = x ∷ f.read;
          splits = ap (◌∷◌ (c ∷ line)) f.splits;
          parsed = (x, f.read, refl, p, f.parsed);
          refused = f.refused;
          number_is = omega (arith, f.number_is);
        },
      )

  read_loop-Outcome : (n : ℕ) (lines : List Text) (out : List A) → Outcome n lines out
  unfolding read_loop Reads
  read_loop-Outcome n [] out = inl ([], ap ok (sym (append-nil out)), refl)
  read_loop-Outcome n ([] ∷ lines) out =
      empty_line n lines out (read_loop-Outcome (n + 1) lines out)
  read_loop-Outcome n ((c ∷ line) ∷ lines) out = elim (Result-cases (parse (c ∷ line))) [
    | inl (x, p) ↦
        parsed_line n c line lines out x p (read_loop-Outcome (n + 1) lines (out ++ (x ∷ [])))
    | inr (what, p) ↦ inr (
      1,
      what,
      rw (read_loop, p) refl,
      record {
        front = [];
        bad = c ∷ line;
        back = lines;
        read = [];
        splits = refl;
        parsed = refl;
        refused = p;
        number_is = omega arith;
      },
    )
  ]

  -- A file is read whole, as the records of its lines that are not empty; or the error names the number,
  -- counted from one and with the empty lines, of the first line that does not parse, and why.
  pub read_jsonl-cases :
      (text : Text)
      → ((xs : List A) × (read_jsonl prefix parse text ≡ ok xs) × Reads parse (lines_of text) xs)
        ⊎ ((number : ℕ) × (what : String) × (read_jsonl prefix parse text
              ≡ err (at_line prefix number what))
            × FailsAt parse (lines_of text) number what)
  unfolding read_jsonl
  read_jsonl-cases text = elim (read_loop-Outcome 0 (lines_of text) []) [
    | inl whole ↦ inl whole
    | inr (number, what, e, f) ↦
        let same : 0 + number ≡ number = omega arith in inr (number, what, rw same at e, f)
  ]

  read_loop-Reads :
      (n : ℕ) (lines : List Text) (ys out : List A)
      → Reads parse lines ys
      → read_loop prefix parse n lines out ≡ ok (out ++ ys)
  unfolding read_loop Reads
  read_loop-Reads n [] ys out h = rw h (ap ok (sym (append-nil out)))
  read_loop-Reads n ([] ∷ lines) ys out h = read_loop-Reads (n + 1) lines ys out h
  read_loop-Reads n ((c ∷ line) ∷ lines) ys out (x, zs, e, p, r) =
      rw (read_loop, p, e)
        (read_loop-Reads (n + 1) lines zs (out ++ (x ∷ [])) r
          ∙ ap ok (append_assoc out (x ∷ []) zs))

  -- Lines that parse to records are read as them.
  pub read_jsonl-Reads :
      (text : Text) (xs : List A)
      → Reads parse (lines_of text) xs
      → read_jsonl prefix parse text ≡ ok xs
  unfolding read_jsonl
  read_jsonl-Reads text xs r = read_loop-Reads 0 (lines_of text) xs [] r
