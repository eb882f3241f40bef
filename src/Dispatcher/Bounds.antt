-- ===== src/Dispatcher/Bounds.antt =====
-- leaf/src/app/dispatcher.rs: the sniffer stays within its bytes.
use i_leaf.Prelude.{
  ℕ, zero, suc, ◌+◌, ◌-◌, ◌<◌, ◌≤◌, ◌≡◌, ◌≢◌, refl, List, [], ◌∷◌, ◌++◌, length, take, drop,
  length-take, length-drop, Bool, true, false, ◌&&◌, leb, le→leb, leb→le, ◌==◌, if◌then◌else◌, ok,
  err, panic, ◌>>=◌, >>=-eq-ok, ensure, arith,
}
use i_leaf.Prelude.Polls.{Event, Poll, pending, ready, poll_inner, not_ready, failed, bytes}
use i_leaf.Dispatcher.{
  Stop, read_again, give_up, Look, at, from, upto, read_u16, needs, long_prefix, server_name,
  extensions, client_hello, look, SniffingStream, looked, after_read, Sniffed, sniff,
}

abbrev NoPanic : {A : Type 0} → Look A → Type 0
NoPanic m = m ≢ panic

module _ {A : Type 0} where
  ensure-NoPanic :
      (c : Bool) (e : Stop) (k : Unit {0} → Look A)
      → (c ≡ true → NoPanic (k tt))
      → NoPanic (ensure c e >>= k)
  ensure-NoPanic true e k h = h refl
  ensure-NoPanic false e k h = λ q. cc

  needs-NoPanic :
      (n : ℕ) (s : List ℕ) (k : Unit {0} → Look A)
      → (n ≤ length s → NoPanic (k tt))
      → NoPanic (needs n s >>= k)
  needs-NoPanic n s k h =
      ensure-NoPanic (leb n (length s)) read_again k (λ q. h (leb→le n (length s) q))

  at-NoPanic :
      (i : ℕ) (s : List ℕ) (k : ℕ → Look A)
      → i < length s
      → ((b : ℕ) → NoPanic (k b))
      → NoPanic (at i s >>= k)
  at-NoPanic i [] k l h = absurd (omega arith)
  at-NoPanic zero (b ∷ s) k l h = h b
  at-NoPanic (suc i) (b ∷ s) k l h = at-NoPanic i s k (omega arith) h

  from-NoPanic :
      (n : ℕ) (s : List ℕ) (k : List ℕ → Look A)
      → n ≤ length s
      → ((r : List ℕ) → length r ≡ length s - n → NoPanic (k r))
      → NoPanic (from n s >>= k)
  from-NoPanic n s k l h = rw (le→leb n (length s) l) (h (drop n s) (length-drop n s))

  upto-NoPanic :
      (n : ℕ) (s : List ℕ) (k : List ℕ → Look A)
      → n ≤ length s
      → ((r : List ℕ) → length r ≡ n → NoPanic (k r))
      → NoPanic (upto n s >>= k)
  upto-NoPanic n s k l h =
      rw (le→leb n (length s) l) (h (take n s) (omega (arith, length-take n s)))

  read_u16-NoPanic :
      (s : List ℕ) (k : ℕ → Look A)
      → 2 ≤ length s
      → ((n : ℕ) → NoPanic (k n))
      → NoPanic (read_u16 s >>= k)
  read_u16-NoPanic [] k l h = absurd (omega arith)
  read_u16-NoPanic (x ∷ []) k l h = absurd (omega arith)
  read_u16-NoPanic (x ∷ y ∷ s) k l h = h _

long_prefix-cases : (s : List ℕ) → NoPanic (long_prefix s)
unfolding long_prefix
long_prefix-cases s = needs-NoPanic 2 s _ (λ l.
    read_u16-NoPanic s _ l
      (λ n. from-NoPanic 2 s _ l (λ rest q. needs-NoPanic n rest _ (λ l2 e. cc))))

bind-NoPanic :
    {A B : Type 0} (m : Look A) (k : A → Look B)
    → NoPanic m
    → ((a : A) → m ≡ ok a → NoPanic (k a))
    → NoPanic (m >>= k)
bind-NoPanic (ok a) k n h = h a refl
bind-NoPanic (err e) k n h = λ q. cc
bind-NoPanic panic k n h = absurd (n refl)

ensure-eq-ok : (c : Bool) (e : Stop) (u : Unit {0}) → ensure c e ≡ ok u → c ≡ true
ensure-eq-ok true e u h = refl
ensure-eq-ok false e u h = absurd cc

long_prefix-eq-ok : (s : List ℕ) (p : ℕ × List ℕ) → long_prefix s ≡ ok p → p.0 ≤ length p.1
unfolding long_prefix
long_prefix-eq-ok s p h =
    let (u, e0, h0) = >>=-eq-ok (needs 2 s) _ h in
    let (n, e1, h1) = >>=-eq-ok (read_u16 s) _ h0 in
    let (rest, e2, h2) = >>=-eq-ok (from 2 s) _ h1 in
    let (v, e3, h3) = >>=-eq-ok (needs n rest) _ h2 in
    let fits = leb→le n (length rest) (ensure-eq-ok (leb n (length rest)) read_again v e3) in
    let same : (n, rest) ≡ p = cc in rw (← same) fits

long_prefix-NoPanic :
    {A : Type 0} (s : List ℕ) (k : ℕ × List ℕ → Look A)
    → ((p : ℕ × List ℕ) → p.0 ≤ length p.1 → NoPanic (k p))
    → NoPanic (long_prefix s >>= k)
long_prefix-NoPanic s k h =
    bind-NoPanic (long_prefix s) k (long_prefix-cases s) (λ p e. h p (long_prefix-eq-ok s p e))

upto-fits : (n : ℕ) (s : List ℕ) → n ≤ length s → NoPanic (upto n s)
upto-fits n s h = rw (le→leb n (length s) h) (λ e. cc)

server_name-NoPanic : (s : List ℕ) → NoPanic (server_name s)
unfolding server_name
server_name-NoPanic s = long_prefix-NoPanic s _ (λ entry l. needs-NoPanic 1 entry.1 _ (λ l1.
    at-NoPanic 0 entry.1 _ (omega arith) (λ t. ensure-NoPanic (t == 0x0) give_up _ (λ e.
      from-NoPanic 1 entry.1 _ l1 (λ name q.
        long_prefix-NoPanic name _ (λ hostname l2. upto-fits hostname.0 hostname.1 l2))))))

branch-NoPanic :
    (c : Bool) (m n : Look (List ℕ)) → NoPanic m → NoPanic n → NoPanic (if c then m else n)
branch-NoPanic true m n h k = h
branch-NoPanic false m n h k = k

-- The fuel is the number of bytes, and every extension takes four or more.
extensions-NoPanic : (fuel : ℕ) (s : List ℕ) → length s ≤ fuel → NoPanic (extensions fuel s)
unfolding extensions
extensions-NoPanic fuel [] h = λ e. cc
extensions-NoPanic zero (b ∷ s) h = absurd (omega arith)
extensions-NoPanic (suc fuel) (b ∷ s) h = needs-NoPanic 4 (b ∷ s) _ (λ l.
    read_u16-NoPanic (b ∷ s) _ (omega arith) (λ extension.
      from-NoPanic 2 (b ∷ s) _ (omega arith) (λ tail q. read_u16-NoPanic tail _ (omega arith) (λ n.
        from-NoPanic 2 tail _ (omega arith) (λ rest r. needs-NoPanic n rest _ (λ l2.
          upto-NoPanic n rest _ l2 (λ ebuf q2. from-NoPanic n rest _ l2 (λ later q3.
            branch-NoPanic (extension == 0x0) (server_name ebuf) (extensions fuel later)
              (server_name-NoPanic ebuf) (extensions-NoPanic fuel later (omega arith))))))))))

body-NoPanic : (body : List ℕ) → NoPanic (client_hello body)
unfolding client_hello
body-NoPanic body = needs-NoPanic 42 body _ (λ l. at-NoPanic 38 body _ (omega arith) (λ id_len.
    ensure-NoPanic (leb id_len 32 && leb (39 + id_len) (length body)) read_again _ (λ e.
      from-NoPanic (39 + id_len) body _ (ground arith) (λ suites q.
        long_prefix-NoPanic suites _ (λ ciphers l1.
          from-NoPanic ciphers.0 ciphers.1 _ l1 (λ compression q1.
            needs-NoPanic 1 compression _ (λ l2.
              at-NoPanic 0 compression _ (omega arith) (λ methods.
                needs-NoPanic (1 + methods) compression _ (λ l3.
                  from-NoPanic (1 + methods) compression _ l3 (λ tail q2.
                    long_prefix-NoPanic tail _ (λ all l4.
                      upto-NoPanic all.0 all.1 _ l4
                        (λ list q3. extensions-NoPanic (length list) list (omega arith)))))))))))))

look-NoPanic : (s : List ℕ) → NoPanic (look s)
unfolding look
look-NoPanic s = needs-NoPanic 5 s _ (λ l. at-NoPanic 0 s _ (omega arith) (λ record_type.
    ensure-NoPanic (record_type == 0x16) give_up _ (λ e0. at-NoPanic 1 s _ (omega arith) (λ version.
      ensure-NoPanic (version == 0x3) give_up _ (λ e1.
        from-NoPanic 3 s _ (omega arith) (λ lengths q.
          long_prefix-NoPanic lengths _
            (λ hello l1. upto-NoPanic hello.0 hello.1 _ l1 (λ body q1. body-NoPanic body))))))))

poll_inner-ne-panic : (size : ℕ) (t : List Event) → (poll_inner size t).0 ≢ ready panic
unfolding poll_inner
poll_inner-ne-panic size [] = λ e. cc
poll_inner-ne-panic size (not_ready ∷ t) = λ e. cc
poll_inner-ne-panic size (failed x ∷ t) = λ e. cc
poll_inner-ne-panic size (bytes bs ∷ t) = λ e. cc

module _ (lossy : List ℕ → List ℕ) where
  looked-ne-panic :
      (m : Look (List ℕ)) (s : SniffingStream) (t : List Event) (again : Sniffed lossy)
      → NoPanic m
      → again.0 ≢ panic
      → (looked lossy m s t again).0 ≢ panic
  unfolding looked
  looked-ne-panic (ok name) s t again h k = λ e. cc
  looked-ne-panic (err read_again) s t again h k = k
  looked-ne-panic (err give_up) s t again h k = λ e. cc
  looked-ne-panic panic s t again h k = absurd (h refl)

  after_read-ne-panic :
      (again : SniffingStream → Sniffed lossy) (p : Poll (List ℕ)) (s : SniffingStream)
      (t : List Event)
      → p ≢ ready panic
      → ((s' : SniffingStream) → (again s').0 ≢ panic)
      → (after_read lossy again p s t).0 ≢ panic
  unfolding after_read
  after_read-ne-panic again pending s t h k = λ e. cc
  after_read-ne-panic again (ready (ok bs)) s t h k =
      looked-ne-panic (look (s.buf ++ bs)) _ t _ (look-NoPanic (s.buf ++ bs)) (k _)
  after_read-ne-panic again (ready (err x)) s t h k = λ e. cc
  after_read-ne-panic again (ready panic) s t h k = absurd (h refl)

  -- Whatever a client sends, and however the transport cuts it, the sniffer never reads outside of the
  -- bytes that it has, and its loop over the extensions ends.
  pub sniff-ne-panic :
      (reads : ℕ) (s : SniffingStream) (t : List Event) → (sniff lossy reads s t).0 ≢ panic
  unfolding sniff
  sniff-ne-panic zero s t = λ e. cc
  sniff-ne-panic (suc reads) s t =
      after_read-ne-panic (λ s'. sniff lossy reads s' (poll_inner 2048 t).1) (poll_inner 2048 t).0 s
        (poll_inner 2048 t).1 (poll_inner-ne-panic 2048 t)
        (λ s'. sniff-ne-panic reads s' (poll_inner 2048 t).1)
