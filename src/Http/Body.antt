-- ===== src/Http/Body.antt =====
-- The body of a request, read in pieces.
use gg.Prelude.{
  ℕ, zero, suc, ◌+◌, ◌-◌, ◌≤◌, ◌≡◌, refl, ap, sym, ◌∙◌, true, false, List, [], ◌∷◌, ◌++◌, arith,
  ◌==◌, ltb, min, ◌<◌, length, take, Result, ok, ◌>>=◌, inl, inr, Bool-cases, append_assoc,
  take-append_le, length-append, take_all, length-take,
}
use gg.Text.{Bytes}
use package.gg.Http.{body_pending, complete, HttpHeader, HttpMessage, read_in_body, append_body}

-- A request of which a part of the body has been read.
abbrev pub pending : Bytes → List HttpHeader → ℕ → Bytes → HttpMessage
pending line headers size body = record {
  first_line = line;
  headers = headers;
  body = body;
  state = body_pending;
  expected = (true, size);
}

-- The bytes taken by an earlier read are counted in.
abbrev pub after : ℕ → ℕ × HttpMessage → Result (ℕ × HttpMessage)
after n (k, m) = ok (n + k, m)

-- One read after another, as long as the message is not complete; the bytes taken are counted.
pub go_on : ℕ × HttpMessage → Bytes → Result (ℕ × HttpMessage)
go_on (n, m) s = elim m.state [ complete ↦ ok (n, m) | _ ↦ read_in_body m s >>= after n ]

take_past : (n : ℕ) (a b : Bytes) → length a ≤ n → take n (a ++ b) ≡ a ++ take (n - length a) b
take_past n [] b h = ap (λ (k : ℕ). take k b) (omega arith)
take_past zero (x ∷ a) b h = absurd (omega arith)
take_past (suc n) (x ∷ a) b h = ap (◌∷◌ x) (
    take_past n a b (omega arith)
    ∙ ap (λ (k : ℕ). a ++ take k b)
        (let e : n - length a ≡ suc n - suc (length a) = omega arith in e))

module _ (line : Bytes) (headers : List HttpHeader) (size : ℕ) where
  part : Bytes → HttpMessage
  part body = pending line headers size body

  ended : Bytes → HttpMessage
  ended body = record (pending line headers size body) { state = complete }

  read_some :
      (body s : Bytes) (n : ℕ)
      → length body ≤ size
      → min (size - length body) (length s) ≡ n
      → read_in_body (pending line headers size body) s
        ≡ ok (append_body (pending line headers size body) s n)
  unfolding read_in_body
  read_some body s n h e = ground (arith, e)

  read_enough :
      (body s : Bytes)
      → length body ≤ size
      → size ≤ length body + length s
      → read_in_body (pending line headers size body) s
        ≡ ok (size - length body, ended (body ++ take (size - length body) s))
  unfolding append_body ended
  read_enough body s h k =
      read_some body s (size - length body) h (omega arith)
      ∙ rw
          (let e : (length (body ++ take (size - length body) s) == size) ≡ true = ground (
            arith,
            length-append body (take (size - length body) s),
            length-take (size - length body) s,
          ) in
            e)
          refl

  read_short :
      (body s : Bytes)
      → length body + length s < size
      → read_in_body (pending line headers size body) s ≡ ok (length s, part (body ++ s))
  unfolding append_body part
  read_short body s h =
      read_some body s (length s) (omega arith) (omega arith)
      ∙ rw (take_all (length s) s (omega arith), unequal) refl
    where
      unequal : (length (body ++ s) == size) ≡ false
      unequal = ground (arith, length-append body s)

  enough_step :
      (body a b : Bytes)
      → length body + length a < size
      → size ≤ length body + length a + length b
      → (read_in_body (pending line headers size (body ++ a)) b >>= after (length a))
        ≡ ok (size - length body, ended (body ++ take (size - length body) (a ++ b)))
  enough_step body a b h k =
      rw
        (
          read_enough (body ++ a) b (omega (arith, length-append body a))
              (omega (arith, length-append body a)),
          length-append body a,
          take_past (size - length body) a b (omega arith),
          append_assoc body a (take (size - (length body + length a)) b),
          subtract,
          again,
        )
        refl
    where
      subtract : length a + (size - (length body + length a)) ≡ size - length body
      subtract = omega arith

      again : size - length body - length a ≡ size - (length body + length a)
      again = omega arith

  short_step :
      (body a b : Bytes)
      → length body + length a < size
      → read_in_body (pending line headers size body) (a ++ b)
        ≡ (read_in_body (pending line headers size (body ++ a)) b >>= after (length a))
  unfolding part ended
  short_step body a b h = elim (Bool-cases (ltb (length body + length a + length b) size)) [
    | inl short ↦
        read_short body (a ++ b) (ground (arith, length-append a b))
        ∙ rw
            (
              read_short (body ++ a) b (ground (arith, length-append body a)),
              append_assoc body a b,
              length-append a b,
            )
            refl
    | inr enough ↦
        read_enough body (a ++ b) (omega arith) (ground (arith, length-append a b))
        ∙ sym (enough_step body a b h (ground arith))
  ]

  -- Where no more than the expected size has been read, a body that comes in two pieces is read
  -- as if it came in one: the same bytes are taken, the same message results, and what follows
  -- the body is left alone.
  pub read_in_body-append :
      (body a b : Bytes)
      → length body ≤ size
      → read_in_body (pending line headers size body) (a ++ b)
        ≡ (read_in_body (pending line headers size body) a >>= λ r. go_on r b)
  unfolding go_on part ended
  read_in_body-append body a b h = elim (Bool-cases (ltb (length body + length a) size)) [
    | inl short ↦
        short_step body a b (ground arith)
        ∙ sym (ap (λ r. r >>= λ q. go_on q b) (read_short body a (ground arith)))
    | inr enough ↦
        read_enough body (a ++ b) h (ground (arith, length-append a b))
        ∙ ap (λ s. ok (size - length body, ended (body ++ s)))
            (take-append_le (size - length body) a b (ground arith))
        ∙ sym (ap (λ r. r >>= λ q. go_on q b) (read_enough body a h (ground arith)))
  ]
