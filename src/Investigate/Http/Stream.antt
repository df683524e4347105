-- ===== src/Investigate/Http/Stream.antt =====
-- What is kept of a body that is streamed.
use os_autoinst_scripts.Prelude.{
  ℕ, zero, suc, ◌+◌, ◌-◌, ◌*◌, ◌/◌, ◌≤◌, ◌≡◌, refl, true, some, List, [], ◌∷◌, ◌++◌, arith, leb,
  length, take, drop, last_n, length-append, length-drop, append_assoc, append-nil, ◌∙◌, sym, ap,
}
use os_autoinst_scripts.Py.Str.{Str}
use os_autoinst_scripts.Investigate.Http.{
  Client, Streamed, add_chunk, add_chunks, nothing_streamed, joined, capped, capped_chunks,
}

module _ {ℓ} {A : Type ℓ} where
  take-append :
      (n k : ℕ) (xs ys : List A) → k ≡ n - length xs → take n (xs ++ ys) ≡ take n xs ++ take k ys
  take-append zero k xs ys h = let e : k ≡ 0 = omega arith in rw e refl
  take-append (suc n) k [] ys h = let e : k ≡ suc n = omega arith in rw e refl
  take-append (suc n) k (x ∷ xs) ys h = ap (λ l. x ∷ l) (take-append n k xs ys (omega arith))

  drop-append :
      (n k : ℕ) (xs ys : List A) → k ≡ n - length xs → drop n (xs ++ ys) ≡ drop n xs ++ drop k ys
  drop-append zero k xs ys h = let e : k ≡ 0 = omega arith in rw e refl
  drop-append (suc n) k [] ys h = let e : k ≡ suc n = omega arith in rw e refl
  drop-append (suc n) k (x ∷ xs) ys h = drop-append n k xs ys (omega arith)

  drop-drop : (a b c : ℕ) (xs : List A) → c ≡ b + a → drop a (drop b xs) ≡ drop c xs
  drop-drop a zero c xs h = let e : c ≡ a = omega arith in rw e refl
  drop-drop zero (suc b) zero [] h = refl
  drop-drop zero (suc b) (suc c) [] h = refl
  drop-drop (suc a) (suc b) zero [] h = refl
  drop-drop (suc a) (suc b) (suc c) [] h = refl
  drop-drop a (suc b) zero (x ∷ xs) h = absurd (omega arith)
  drop-drop a (suc b) (suc c) (x ∷ xs) h = drop-drop a b c xs (omega arith)

  length-take_min : (n : ℕ) (xs : List A) → n - length (take n xs) ≡ n - length xs
  length-take_min zero xs = omega arith
  length-take_min (suc n) [] = refl
  length-take_min (suc n) (x ∷ xs) = omega (arith, length-take_min n xs)

  take-drop : (n : ℕ) (xs : List A) → take n xs ++ drop n xs ≡ xs
  take-drop zero xs = refl
  take-drop (suc n) [] = refl
  take-drop (suc n) (x ∷ xs) = ap (λ l. x ∷ l) (take-drop n xs)

  -- The last of what was cut to its last and goes on is the last of the whole.
  last_n-append : (n : ℕ) (xs ys : List A) → last_n n (last_n n xs ++ ys) ≡ last_n n (xs ++ ys)
  last_n-append n xs ys =
      let k = length xs - n in
      let same : drop k (xs ++ ys) ≡ drop k xs ++ ys = drop-append k 0 xs ys (omega arith) in
      rw (← same) (
        drop-drop (length (drop k (xs ++ ys)) - n) k (length (xs ++ ys) - n) (xs ++ ys)
          (omega (arith, length-drop k (xs ++ ys), length-append xs ys)))

-- What is kept of a body: its first `half` bytes and the last `half` of the others.
abbrev pub kept : ℕ → Str → Streamed
kept half body = record {
  head = take half body;
  tail = last_n half (drop half body);
  total = length body;
}

abbrev pub all_of : List Str → Str
all_of [] = []
all_of (chunk ∷ chunks) = chunk ++ all_of chunks

abbrev streamed : Str → Str → ℕ → Streamed
streamed head tail total = record { head = head; tail = tail; total = total }

Streamed-eq : {h k t u : Str} {a b : ℕ} → h ≡ k → t ≡ u → a ≡ b → streamed h t a ≡ streamed k u b
Streamed-eq {h} {k} {t} {u} {a} {b} e f g =
    ap (λ x. streamed x t a) e ∙ ap (λ x. streamed k x a) f ∙ ap (streamed k u) g

add_chunk-kept :
    (n : ℕ) (body chunk : Str)
    → add_chunk (suc n) (kept (suc n) body) chunk ≡ kept (suc n) (body ++ chunk)
unfolding add_chunk
add_chunk-kept n body chunk =
    let room = suc n - length (take (suc n) body) in
    let short : room ≡ suc n - length body = length-take_min (suc n) body in
    Streamed-eq (sym (take-append (suc n) room body chunk short))
      (last_n-append (suc n) (drop (suc n) body) (drop room chunk)
        ∙ ap (last_n (suc n)) (sym (drop-append (suc n) room body chunk short)))
      (sym (length-append body chunk))

add_chunks-kept :
    (n : ℕ) (body : Str) (chunks : List Str)
    → add_chunks (suc n) (kept (suc n) body) chunks ≡ kept (suc n) (body ++ all_of chunks)
unfolding add_chunks
add_chunks-kept n body [] = ap (kept (suc n)) (sym (append-nil body))
add_chunks-kept n body (chunk ∷ chunks) =
    ap (λ s. add_chunks (suc n) s chunks) (add_chunk-kept n body chunk)
    ∙ add_chunks-kept n (body ++ chunk) chunks
    ∙ ap (kept (suc n)) (append_assoc body chunk (all_of chunks))

drop-nil : (k : ℕ) → drop {A = ℕ} k [] ≡ []
drop-nil zero = refl
drop-nil (suc k) = refl

nothing_kept : (n : ℕ) → nothing_streamed ≡ kept (suc n) []
nothing_kept n = Streamed-eq refl (sym (drop-nil (0 - suc n))) refl

-- What is kept while the chunks of a body come in, however it is cut into them, is its first half of
-- the cap and the last half of the cap of what follows, for an even cap that is not 0.
pub add_chunks_lem :
    (half : ℕ) (chunks : List Str)
    → 1 ≤ half
    → add_chunks half nothing_streamed chunks ≡ kept half (all_of chunks)
add_chunks_lem zero chunks h = absurd (omega arith)
add_chunks_lem (suc n) chunks h =
    ap (λ s. add_chunks (suc n) s chunks) (nothing_kept n) ∙ add_chunks-kept n [] chunks

whole :
    (half : ℕ) (body : Str)
    → length body ≤ 2 * half
    → take half body ++ last_n half (drop half body) ≡ body
whole half body h =
    let all_left : length (drop half body) - half ≡ 0 = omega (arith, length-drop half body) in
    rw all_left (take-drop half body)

joined-kept :
    (client : Client) (half : ℕ) (body : Str)
    → length body ≤ 2 * half
    → joined client (2 * half) (kept half body) ≡ client.decode body
unfolding joined
joined-kept client half body h =
    let short : leb (length body) (2 * half) ≡ true = ground (arith, h) in
    rw short (ap client.decode (whole half body h))

-- For an even cap that is not 0, a body of at most so many bytes is returned in whole, in whatever
-- chunks it comes.
pub capped-whole :
    (client : Client) (path : Str) (chunks : List Str) (half : ℕ)
    → client.stream path ≡ some chunks
    → 1 ≤ half
    → length (all_of chunks) ≤ 2 * half
    → capped client path (2 * half) ≡ some (client.decode (all_of chunks))
unfolding capped
capped-whole client path chunks half e h k =
    let same : (2 * half) / 2 ≡ half = omega arith in
    ap (capped_chunks client (2 * half)) e
    ∙ ap (λ n. some (joined client (2 * half) (add_chunks n nothing_streamed chunks))) same
    ∙ ap (λ s. some (joined client (2 * half) s)) (add_chunks_lem half chunks h)
    ∙ ap some (joined-kept client half (all_of chunks) k)
