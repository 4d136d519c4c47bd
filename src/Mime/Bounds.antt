-- ===== src/Mime/Bounds.antt =====
-- The buffers of `onion_mime_fill`, `mimetype[128]` and `extension[8]`, are never overrun.
use onion.Prelude.{ℕ, ◌≤◌, [], ◌∷◌, if◌then◌else◌, Bytes, length, arith, length-append}
use onion.Prelude.Predicates.{All}
use onion.Mime.{nothing, Filling, take_char, step, finish_file, fill_from}

-- Each text and its terminator lie in the buffer: what is being read, the last type, and all that
-- was added.
abbrev pub Fits : Filling → Type 0
Fits s =
    (length (s.text) ≤ (if s.in_extension then 7 else 127))
    × (length (s.mimetype) ≤ 127)
    × All (λ a. (length (a.0) ≤ 7) × (length (a.1) ≤ 127)) (s.added)

take_char-Fits : (s : Filling) (c : ℕ) → Fits s → Fits (take_char s c)
unfolding take_char
take_char-Fits s c (ht, hm, ha) = ground (arith, length-append (s.text) (c ∷ []))

step-Fits : (s : Filling) (c : ℕ) → Fits s → Fits (step s c)
unfolding step
step-Fits s c h =
    ground (arith, take_char-Fits s c h, take_char-Fits (record s { skip = nothing }) c h)

finish_file-Fits : (s : Filling) → Fits s → Fits (finish_file s)
unfolding finish_file
finish_file-Fits s h = ground (arith, take_char-Fits (record s { skip = nothing }) 255 h)

-- Whatever the file holds, no text is longer than its buffer, less the terminator, if none was
-- before.
fill_from-Fits : (s : Filling) (file : Bytes) → Fits s → Fits (fill_from s file)
unfolding fill_from
fill_from-Fits s [] h = finish_file-Fits s h
fill_from-Fits s (c ∷ file) h = fill_from-Fits (step s c) file (step-Fits s c h)
