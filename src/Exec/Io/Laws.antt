-- ===== src/Exec/Io/Laws.antt =====
-- What has gone through when a whole write or read ends, and that it ends.
use nono_py.Common.{
  ℕ, zero, suc, ◌-◌, ◌≤◌, Bytes, Bool, true, false, length, take, drop, is_empty, is_some, List, [],
  ◌∷◌, ◌++◌, Option, none, some, ◌≡◌, refl, sym, ap, ap₂, ◌∙◌, take-append-drop, arith, subst,
}
use nono_py.Exec.Io.{
  WriteReply, wrote, write_interrupted, write_failed, ReadReply, got, read_interrupted, read_failed,
  after, raw_write_all, write_all_raw, read_exact_raw,
}

-- What was sent is a prefix of the buffer, and the outcome says whether it is all of it.
abbrev pub Sent : Bytes → Bool × Bytes → Type 0
Sent buf (done, out) = (rest : Bytes) × (buf ≡ out ++ rest) × (done ≡ is_empty rest)

append_assoc : (xs ys zs : Bytes) → (xs ++ ys) ++ zs ≡ xs ++ (ys ++ zs)
append_assoc [] ys zs = refl
append_assoc (x ∷ xs) ys zs = rw (append_assoc xs ys zs) refl

Sent-after :
    (b : ℕ) (n : ℕ) (buf : Bytes) (o : Option (Bool × Bytes)) {r : Bool × Bytes}
    → ((s : Bool × Bytes) → o ≡ some s → Sent (drop n buf) s)
    → after (b ∷ take n buf) o ≡ some r
    → Sent (b ∷ buf) r
Sent-after b n buf none ih h = absurd (cc h)
Sent-after b n buf (some (done, out)) {r} ih h =
    let (rest, e, d) = ih (done, out) refl in
    let q : r ≡ (done, (b ∷ take n buf) ++ out) = cc h in
    subst (λ x. Sent (b ∷ buf) x) (sym q)
      (
        rest,
        ap (λ x. b ∷ x)
            (sym (take-append-drop n buf)
              ∙ ap (λ x. take n buf ++ x) e
              ∙ sym (append_assoc (take n buf) out rest)),
        d,
      )

unsent : (b : ℕ) (buf : Bytes) {r : Bool × Bytes} → some (false, []) ≡ some r → Sent (b ∷ buf) r
unsent b buf {r} h =
    let q : r ≡ (false, []) = cc h in subst (λ x. Sent (b ∷ buf) x) (sym q) (b ∷ buf, refl, refl)

-- When the clone path's write ends, what went out is a prefix of the buffer, and the outcome is
-- true exactly if it is the whole buffer.
pub raw_write_all-Sent :
    (rs : List WriteReply) (buf : Bytes) (r : Bool × Bytes)
    → raw_write_all rs buf ≡ some r
    → Sent buf r
unfolding raw_write_all
raw_write_all-Sent rs [] r h =
    let q : r ≡ (true, []) = cc h in subst (λ x. Sent [] x) (sym q) ([], refl, refl)
raw_write_all-Sent [] (b ∷ buf) r h = absurd (cc h)
raw_write_all-Sent (wrote zero ∷ rs) (b ∷ buf) r h = unsent b buf h
raw_write_all-Sent (wrote (suc n) ∷ rs) (b ∷ buf) r h =
    Sent-after b n buf _ (λ s. raw_write_all-Sent rs (drop n buf) s) h
raw_write_all-Sent (write_interrupted ∷ rs) (b ∷ buf) r h = raw_write_all-Sent rs (b ∷ buf) r h
raw_write_all-Sent (write_failed ∷ rs) (b ∷ buf) r h = unsent b buf h

-- When the fork path's write ends, what went out is a prefix of the buffer, and the outcome is true
-- exactly if it is the whole buffer.
write_all_raw-Sent :
    (rs : List WriteReply) (buf : Bytes) (r : Bool × Bytes)
    → write_all_raw rs buf ≡ some r
    → Sent buf r
unfolding write_all_raw
write_all_raw-Sent rs [] r h =
    let q : r ≡ (true, []) = cc h in subst (λ x. Sent [] x) (sym q) ([], refl, refl)
write_all_raw-Sent [] (b ∷ buf) r h = absurd (cc h)
write_all_raw-Sent (wrote zero ∷ rs) (b ∷ buf) r h = write_all_raw-Sent rs (b ∷ buf) r h
write_all_raw-Sent (wrote (suc n) ∷ rs) (b ∷ buf) r h =
    Sent-after b n buf _ (λ s. write_all_raw-Sent rs (drop n buf) s) h
write_all_raw-Sent (write_interrupted ∷ rs) (b ∷ buf) r h = write_all_raw-Sent rs (b ∷ buf) r h
write_all_raw-Sent (write_failed ∷ rs) (b ∷ buf) r h = unsent b buf h

-- The answers that are not interruptions.
abbrev pub answers : List WriteReply → ℕ
answers [] = 0
answers (write_interrupted ∷ rs) = answers rs
answers (_ ∷ rs) = suc (answers rs)

length-drop-le : (n : ℕ) (xs : Bytes) → length (drop n xs) ≤ length xs
length-drop-le zero xs = omega arith
length-drop-le (suc n) [] = omega arith
length-drop-le (suc n) (x ∷ xs) = omega (arith, length-drop-le n xs)

is_some-after : (sent : Bytes) (o : Option (Bool × Bytes)) → is_some (after sent o) ≡ is_some o
is_some-after sent none = refl
is_some-after sent (some (done, out)) = refl

-- The clone path's write ends once the kernel has answered, interruptions apart, as often as the
-- buffer is long.
pub raw_write_all-ends :
    (rs : List WriteReply) (buf : Bytes)
    → length buf ≤ answers rs
    → is_some (raw_write_all rs buf) ≡ true
unfolding raw_write_all
raw_write_all-ends rs [] h = refl
raw_write_all-ends [] (b ∷ buf) h = absurd (omega (arith, h))
raw_write_all-ends (wrote zero ∷ rs) (b ∷ buf) h = refl
raw_write_all-ends (wrote (suc n) ∷ rs) (b ∷ buf) h =
    is_some-after (b ∷ take n buf) (raw_write_all rs (drop n buf))
    ∙ raw_write_all-ends rs (drop n buf) (omega (arith, h, length-drop-le n buf))
raw_write_all-ends (write_interrupted ∷ rs) (b ∷ buf) h = raw_write_all-ends rs (b ∷ buf) h
raw_write_all-ends (write_failed ∷ rs) (b ∷ buf) h = refl

-- A stream that neither ends nor fails, and what it carries.
abbrev pub IsFlowing : List ReadReply → Type 0
IsFlowing [] = Unit
IsFlowing (got [] ∷ rs) = ⊥
IsFlowing (got (b ∷ bytes) ∷ rs) = IsFlowing rs
IsFlowing (read_interrupted ∷ rs) = IsFlowing rs
IsFlowing (read_failed ∷ rs) = ⊥

abbrev pub carried : List ReadReply → Bytes
carried [] = []
carried (got bytes ∷ rs) = bytes ++ carried rs
carried (_ ∷ rs) = carried rs

take-all : (bytes rest : Bytes) → take (length (bytes ++ rest)) bytes ≡ bytes
take-all [] [] = refl
take-all [] (x ∷ rest) = refl
take-all (b ∷ bytes) rest = ap (λ x. b ∷ x) (take-all bytes rest)

length-minus : (bytes rest : Bytes) → length (bytes ++ rest) - length bytes ≡ length rest
length-minus [] rest = omega arith
length-minus (b ∷ bytes) rest = omega (arith, length-minus bytes rest)

read-interrupted :
    (rs : List ReadReply) (n : ℕ) → read_exact_raw (read_interrupted ∷ rs) n ≡ read_exact_raw rs n
unfolding read_exact_raw
read-interrupted rs zero = refl
read-interrupted rs (suc n) = refl

read_exact_raw-carried :
    (rs : List ReadReply)
    → IsFlowing rs
    → read_exact_raw rs (length (carried rs)) ≡ some (true, carried rs)
unfolding read_exact_raw
read_exact_raw-carried [] f = refl
read_exact_raw-carried (got [] ∷ rs) f = absurd f
read_exact_raw-carried (got (b ∷ bytes) ∷ rs) f =
    ap₂ (λ x y. after (b ∷ x) y) (take-all bytes (carried rs))
      (ap (read_exact_raw rs) (length-minus bytes (carried rs)) ∙ read_exact_raw-carried rs f)
read_exact_raw-carried (read_interrupted ∷ rs) f =
    read-interrupted rs (length (carried rs)) ∙ read_exact_raw-carried rs f
read_exact_raw-carried (read_failed ∷ rs) f = absurd f

-- A buffer that the clone path's write has sent whole is what an exact read of its length gets, in
-- whatever pieces and with whatever interruptions the bytes arrive.
pub read_exact_raw-raw_write_all :
    (ws : List WriteReply) (rs : List ReadReply) (buf out : Bytes)
    → raw_write_all ws buf ≡ some (true, out)
    → IsFlowing rs
    → carried rs ≡ out
    → read_exact_raw rs (length buf) ≡ some (true, buf)
read_exact_raw-raw_write_all ws rs buf out h f e =
    let (rest, split, full) = raw_write_all-Sent ws buf (true, out) h in
    let q : carried rs ≡ buf = e ∙ sym (split ∙ whole out rest full) in
    subst (λ x. read_exact_raw rs (length x) ≡ some (true, x)) q (read_exact_raw-carried rs f)
  where
    whole : (out rest : Bytes) → true ≡ is_empty rest → (out ++ rest) ≡ out
    whole [] [] e = refl
    whole (x ∷ out) [] e = ap (λ y. x ∷ y) (whole out [] e)
    whole out (y ∷ rest) e = absurd (cc e)
