-- ===== src/RequestParser/Multipart/Kept.antt =====
-- Nothing of an uploaded file is lost, and nothing is added.
use onion.Prelude.{
  ℕ, zero, suc, ◌+◌, ◌*◌, ◌≤◌, ◌<◌, [], ◌∷◌, ◌++◌, true, false, none, some, ◌≡◌, refl, sym, ap,
  subst, ◌∙◌, ◌==◌, ltb, Bytes, length, take, drop, get_or, arith, take_all, Bool-cases, inl, inr,
  ◌⊎◌, append_assoc, append-nil,
}
use onion.RequestParser.Multipart.State.{
  Multipart, Progress, next, calls, needs_more, ready, fails, leaves,
}
use onion.RequestParser.Multipart.Files.{
  Filed, started, released, kept, matched_byte, file_step, end_file, file_from, parse_file,
  tmp_size,
}

-- The bytes that were taken for the start of a boundary.
abbrev pub pending : Multipart → Bytes
pending m = drop m.startpos (take m.pos m.boundary)

-- What came of the file so far, with what is not written yet.
abbrev pub received : Multipart → Bytes → Bytes
received m tmp = m.file ++ (tmp ++ pending m)

-- A boundary as `prepare_POST` makes it, and a place in it or behind it.
abbrev pub IsWithin : Bytes → Multipart → Type 0
IsWithin t m =
    (m.boundary ≡ b'\r' ∷ b'\n' ∷ t)
    × (m.startpos ≤ 1)
    × (m.startpos ≤ m.pos)
    × (m.pos ≤ length m.boundary)

-- What a round of the loop may leave of `all`, the bytes that came: it fails only where the size is
-- too big, and `most` bounds what it counts.
abbrev IsFiled : ℕ → ℕ → Bytes → Bytes → Filed → Type 0
IsFiled max_file_size most t all none = max_file_size < most
IsFiled max_file_size most t all (some (m, tmp)) =
    IsWithin t m × (received m tmp ≡ all) × (m.file_total_size + m.pos ≤ most)

take-suc :
    (n : ℕ) (s : Bytes) (c : ℕ)
    → n < length s
    → c ≡ get_or s n 0
    → take (suc n) s ≡ take n s ++ c ∷ []
take-suc n [] c l e = absurd (omega arith)
take-suc zero (d ∷ s) c l e = rw e
take-suc (suc n) (d ∷ s) c l e = ap (λ t. d ∷ t) (take-suc n s c (omega arith) e)

drop-append : (n : ℕ) (s t : Bytes) → n ≤ length s → drop n (s ++ t) ≡ drop n s ++ t
drop-append zero s t l = refl
drop-append (suc n) [] t l = absurd (omega arith)
drop-append (suc n) (c ∷ s) t l = drop-append n s t (omega arith)

length-take_le : (n : ℕ) (s : Bytes) → n ≤ length s → length (take n s) ≡ n
length-take_le zero s l = refl
length-take_le (suc n) [] l = absurd (omega arith)
length-take_le (suc n) (c ∷ s) l = ap suc (length-take_le n s (omega arith))

-- One more byte of the boundary.
pending-suc :
    (m : Multipart) (c : ℕ)
    → m.startpos ≤ m.pos
    → m.pos < length m.boundary
    → c ≡ get_or m.boundary m.pos 0
    → drop m.startpos (take (suc m.pos) m.boundary) ≡ pending m ++ c ∷ []
pending-suc m c s l e =
    ap (drop m.startpos) (take-suc m.pos m.boundary c l e)
    ∙ drop-append m.startpos (take m.pos m.boundary) (c ∷ [])
        (omega (arith, length-take_le m.pos m.boundary))

abbrev total : Multipart → ℕ
total m = m.file_total_size + m.pos

abbrev at_place : Multipart → Bytes → ℕ → ℕ → Multipart
at_place m t p s = record m { boundary = b'\r' ∷ b'\n' ∷ t; pos = p; startpos = s }

-- A byte that is no part of a boundary.
kept-IsFiled :
    (max most : ℕ) (m : Multipart) (t tmp : Bytes) (c : ℕ)
    → m.file_total_size + 1 ≤ most
    → IsFiled max most t (m.file ++ (tmp ++ c ∷ [])) (some (kept (at_place m t 0 0) tmp c))
unfolding kept
kept-IsFiled max most m t tmp c big = elim (Bool-cases (length (tmp ++ c ∷ []) == tmp_size)) [
  | inl full ↦ rw full ((refl, omega arith, omega arith, omega arith), simp append-nil, omega arith)
  | inr room ↦ rw room ((refl, omega arith, omega arith, omega arith), simp append-nil, omega arith)
]

-- A byte where nothing was taken for a boundary.
plain-IsFiled :
    (n max most : ℕ) (m : Multipart) (t tmp : Bytes) (c : ℕ)
    → m.file_total_size + 3 ≤ most
    → IsFiled max most t
        (m.file ++ (tmp ++ c ∷ []))
        (file_step (suc n) max (at_place m t 0 0) tmp c)
unfolding file_step started matched_byte
plain-IsFiled n max most m t tmp c big = elim (Bool-cases (c == b'\n')) [
  | inl e ↦
      let same : c ≡ b'\n' = ground arith in
      rw same ((refl, omega arith, omega arith, omega arith), refl, ground arith)
  | inr e ↦ elim (Bool-cases (c == b'\r')) [
    | inl f ↦
        let same : c ≡ b'\r' = ground arith in
        rw same ((refl, omega arith, omega arith, omega arith), refl, ground arith)
    | inr f ↦ elim (Bool-cases (ltb max m.file_total_size)) [
      | inl g ↦ rw (e, f, g) (ground arith)
      | inr g ↦ rw (e, f, g) (kept-IsFiled max most m t tmp c (omega arith))
    ]
  ]
]

-- Any byte.
step-IsFiled :
    (max most : ℕ) (m : Multipart) (t tmp : Bytes) (p s : ℕ) (c : ℕ)
    → s ≤ 1
    → s ≤ p
    → p < length t + 2
    → m.file_total_size + p + 3 ≤ most
    → IsFiled max most t
        (received (at_place m t p s) (tmp) ++ c ∷ [])
        (file_step 2 max (at_place m t p s) tmp c)
unfolding file_step started released matched_byte
step-IsFiled max most m t tmp zero (suc s) c h h' l big = absurd (omega arith)
step-IsFiled max most m t tmp zero zero c h h' l big =
    subst (λ all. IsFiled max most t all (file_step 2 max (at_place m t 0 0) tmp c))
      (simp (append-nil, append_assoc)) (plain-IsFiled 1 max most m t tmp c (omega arith))
step-IsFiled max most m t tmp (suc p) s c h h' l big =
    let some_taken : (suc p == 0) ≡ false = ground arith in
    let here = at_place m t (suc p) s in
    let same : (c == get_or (b'\n' ∷ t) p 0) ≡ true
        → received (at_place m t (suc (suc p)) s) tmp ≡ received here tmp ++ c ∷ [] =
      λ e.
        ap (λ x. m.file ++ (tmp ++ x)) (pending-suc here c h' (omega arith) (ground arith))
        ∙ simp append_assoc in
    let behind = record m {
      file = m.file ++ (tmp ++ pending here);
      file_total_size = m.file_total_size + suc p;
    } in
    elim (Bool-cases (c == get_or (b'\n' ∷ t) p 0)) [
      | inl e ↦ rw (some_taken, e) ((refl, h, omega arith, omega arith), same e, ground arith)
      | inr e ↦ elim (Bool-cases (ltb max m.file_total_size)) [
        | inl g ↦ rw (some_taken, e, g) (ground arith)
        | inr g ↦
            rw (some_taken, e, g, some_taken)
              (subst (λ all. IsFiled max most t all (file_step 1 max (at_place behind t 0 0) [] c))
                (simp append_assoc) (plain-IsFiled 0 max most behind t [] c (omega arith)))
      ]
    ]

file_step-IsFiled :
    (max : ℕ) (m : Multipart) (t tmp : Bytes) (c : ℕ)
    → IsWithin t m
    → m.pos < length t + 2
    → IsFiled max (total m + 3) t (received m tmp ++ c ∷ []) (file_step 2 max m tmp c)
file_step-IsFiled max m t tmp c (e, h, h', l) inside =
    subst
      (λ b.
        IsFiled max (total m + 3) t (received (record m { boundary = b }) tmp ++ c ∷ [])
          (file_step 2 max (record m { boundary = b }) tmp c))
      (sym e)
      (step-IsFiled max (total m + 3) m t tmp (m.pos) (m.startpos) c h h' inside (omega arith))

-- What a call leaves of `all`, the bytes that came: the file and the start of a boundary, where the
-- data ends; the file and a boundary, with its carriage return or without, where it was found. A
-- call fails only where the size is too big.
abbrev pub IsParted : ℕ → ℕ → Bytes → Bytes → Progress → Type 0
IsParted max_file_size most t all (needs_more m rest) =
    ((rest ≡ []) × IsWithin t m × (m.pos < length t + 2) × (total m ≤ most) × (received m [] ≡ all))
    ⊎ ((m.stage ≡ next)
        × ((m.file ++ (b'\r' ∷ b'\n' ∷ (t ++ rest)) ≡ all)
            ⊎ (m.file ++ (b'\n' ∷ (t ++ rest)) ≡ all)))
IsParted max_file_size most t all fails = max_file_size < most
IsParted max_file_size most t all _ = ⊥

IsParted-weaken :
    (max most most' : ℕ) (t all : Bytes) (p : Progress)
    → most ≤ most'
    → IsParted max most t all p
    → IsParted max most' t all p
IsParted-weaken max most most' t all (needs_more m rest) l (inl (e, w, i, b, r)) =
    inl (e, w, i, omega arith, r)
IsParted-weaken max most most' t all (needs_more m rest) l (inr h) = inr h
IsParted-weaken max most most' t all fails l h = omega arith
IsParted-weaken max most most' t all (calls m rest) l h = absurd h
IsParted-weaken max most most' t all (ready m rest) l h = absurd h
IsParted-weaken max most most' t all leaves l h = absurd h

-- What was received where the boundary is whole: from its carriage return on, or from its line feed.
whole_parts :
    (f tmp t rest : Bytes) (s : ℕ)
    → s ≤ 1
    → ((f ++ tmp) ++ (b'\r' ∷ b'\n' ∷ (t ++ rest))
        ≡ (f ++ (tmp ++ drop s (b'\r' ∷ b'\n' ∷ t))) ++ rest)
      ⊎ ((f ++ tmp) ++ (b'\n' ∷ (t ++ rest)) ≡ (f ++ (tmp ++ drop s (b'\r' ∷ b'\n' ∷ t))) ++ rest)
whole_parts f tmp t rest zero l = inl (simp append_assoc)
whole_parts f tmp t rest (suc zero) l = inr (simp append_assoc)
whole_parts f tmp t rest (suc (suc s)) l = absurd (omega arith)

end_file-IsParted :
    (max most : ℕ) (m : Multipart) (t tmp rest : Bytes)
    → IsWithin t m
    → m.pos ≡ length m.boundary
    → IsParted max most t (received m tmp ++ rest) (end_file m tmp rest)
unfolding end_file
end_file-IsParted max most m t tmp rest (e, h, h', l) full =
    let whole : take m.pos m.boundary ≡ b'\r' ∷ b'\n' ∷ t =
      take_all m.pos m.boundary (omega arith) ∙ e in
    subst
      (λ b.
        IsParted max most t ((m.file ++ (tmp ++ drop m.startpos b)) ++ rest) (end_file m tmp rest))
      (sym whole) (inr (refl, whole_parts m.file tmp t rest m.startpos h))

abbrev FromHere : ℕ → Bytes → Bytes → Type 0
FromHere max t rest =
    (m : Multipart) (tmp : Bytes)
    → IsWithin t m
    → m.pos < length t + 2
    → IsParted max (total m + 3 * length rest) t (received m tmp ++ rest) (file_from max m tmp rest)

-- One round, where the rounds after it are as they should be.
file_from-IsParted_step :
    (max : ℕ) (m : Multipart) (t tmp : Bytes) (c : ℕ) (rest : Bytes) (o : Filed)
    → FromHere max t rest
    → file_step 2 max m tmp c ≡ o
    → IsFiled max (total m + 3) t (received m tmp ++ c ∷ []) o
    → IsParted max
        (total m + 3 * suc (length rest))
        t
        (received m tmp ++ c ∷ rest)
        (file_from max m tmp (c ∷ rest))
unfolding file_from
file_from-IsParted_step max m t tmp c rest none onward e h = rw (e, file_from) (omega arith)
file_from-IsParted_step max m t tmp c rest (some (m', tmp')) onward e (w, r, b) =
    let all : received m' tmp' ++ rest ≡ received m tmp ++ c ∷ rest =
      ap (λ s. s ++ rest) r ∙ append_assoc (received m tmp) (c ∷ []) rest in
    let len : length m'.boundary ≡ suc (suc (length t)) = ap length w.0 in
    subst (λ s. IsParted max (total m + 3 * suc (length rest)) t s (file_from max m tmp (c ∷ rest)))
      all
      (elim (Bool-cases (m'.pos == length m'.boundary)) [
        | inl f ↦
            rw (e, file_from, f)
              (end_file-IsParted max (total m + 3 * suc (length rest)) m' t tmp' rest w
                (ground arith))
        | inr f ↦
            rw (e, file_from, f)
              (IsParted-weaken max (total m' + 3 * length rest) (total m + 3 * suc (length rest)) t
                (received m' tmp' ++ rest) (file_from max m' tmp' rest) (omega arith)
                (onward m' tmp' w (ground arith)))
      ])

file_from-IsParted : (max : ℕ) (t rest : Bytes) → FromHere max t rest
unfolding file_from
file_from-IsParted max t [] m tmp w inside =
    inl (refl, w, inside, omega arith, simp (append-nil, append_assoc))
file_from-IsParted max t (c ∷ rest) m tmp w inside =
    file_from-IsParted_step max m t tmp c rest (file_step 2 max m tmp c)
      (file_from-IsParted max t rest) refl (file_step-IsFiled max m t tmp c w inside)

-- A call of `parse_POST_multipart_file` with a boundary as `prepare_POST` makes it, at a place in it:
-- what came of the file before, with the start of a boundary that was not written, and the data of
-- the call are the bytes of the file, the boundary with its carriage return or without, and what is
-- left to read; or, where all data was read, the bytes of the file and the start of a boundary. No
-- byte is lost or added. A call fails only where the size is too big, which counts three for a byte
-- of the data at most, and does nothing else.
pub parse_file-IsParted :
    (max_file_size : ℕ) (m : Multipart) (t input : Bytes)
    → IsWithin t m
    → m.pos < length t + 2
    → IsParted max_file_size
        (m.file_total_size + m.pos + 3 * length input)
        t
        ((m.file ++ pending m) ++ input)
        (parse_file max_file_size m input)
unfolding parse_file
parse_file-IsParted max_file_size m t input w inside =
    file_from-IsParted max_file_size t input m [] w inside
