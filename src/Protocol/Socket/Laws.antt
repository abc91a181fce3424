-- ===== src/Protocol/Socket/Laws.antt =====
-- The reading functions `get_int`, `get_time` and `get_str` of protocol.c on a stream that begins
-- with a value that was sent.
use mocp.Prelude.{
  ℕ, zero, suc, ◌+◌, ◌-◌, ◌≤◌, ◌<◌, ◌≡◌, refl, ap, ◌∙◌, sym, List, [], ◌∷◌, ◌++◌, some, length,
  take, drop, length-take, length-drop, length-append, take-append-drop, take-append_left,
  drop-append_left, take-append_self, drop-append_self, append-nil, append_assoc, lt→ltb, le→leb,
  arith, ==_refl,
}
use mocp.Prelude.Int.{ℤ, pos}
use mocp.Bytes.{
  Str, IsWord, IsString, int_bytes, time_bytes, bytes_int, bytes_time, c_string-eq,
  bytes_int-int_bytes, bytes_time-time_bytes, length-int_bytes, length-time_bytes,
}
use mocp.Protocol.Packet.Contents.{str_bytes}
use mocp.Protocol.Socket.{
  Recv, received, Socket, Delivers, Read, ◌>>=◌, get_int, get_time, get_str, get_str_loop, pure,
  whole, chunk, max_send_string,
}

module _ (k : Socket) (d : Delivers k) where
  -- `m` takes exactly `bytes` off the stream and returns `a`, whatever comes behind them.
  abbrev pub Takes : {A : Type 0} → Read k.State A → List ℕ → A → Type 0
  Takes m bytes a =
      (s : k.State) (rest : List ℕ)
      → d.pending s ≡ bytes ++ rest
      → (s' : k.State) × (m s ≡ (some a, s')) × (d.pending s' ≡ rest)

  pub bind-Takes :
      {A B : Type 0} (m : Read k.State A) (f : A → Read k.State B) (xs ys : List ℕ) (a : A) (b : B)
      → Takes m xs a
      → Takes (f a) ys b
      → Takes (m >>= f) (xs ++ ys) b
  bind-Takes m f xs ys a b p q s rest e =
      let (s1, e1, r1) = p s (ys ++ rest) (e ∙ append_assoc xs ys rest) in
      let (s2, e2, r2) = q s1 rest r1 in (s2, rw e1 e2, r2)

  pub map-Takes :
      {A B : Type 0} (m : Read k.State A) (g : A → B) (xs : List ℕ) (a : A)
      → Takes m xs a
      → Takes (m >>= λ a. pure (g a)) xs (g a)
  map-Takes m g xs a p s rest e = let (s1, e1, r1) = p s rest e in (s1, rw e1 refl, r1)

  -- a word that has arrived is read whole
  word-Takes :
      (n : ℕ) (value : List ℕ → ℤ) (bytes : List ℕ)
      → n ≤ 8
      → length bytes ≡ n
      → Takes (λ s. whole n value (k.recv s n)) bytes (value bytes)
  word-Takes n value bytes h l s rest e =
      let (s', got, left) =
        d.whole_word s n h (omega (arith, ap length e, length-append bytes rest)) in
      let front : take n (d.pending s) ≡ bytes =
        ap (take n) e ∙ take-append_self n bytes rest (sym l) in
      (
        s',
        rw (got, front, l, ==_refl n) refl,
        left ∙ ap (drop n) e ∙ drop-append_self n bytes rest (sym l),
      )

  pub get_int-Takes : (n : ℤ) → IsWord 32 n → Takes (get_int k) (int_bytes n) n
  unfolding get_int
  get_int-Takes n h =
      rw (bytes_int-int_bytes n h) at
        (word-Takes 4 bytes_int (int_bytes n) (omega arith) (length-int_bytes n))

  pub get_time-Takes : (n : ℤ) → IsWord 64 n → Takes (get_time k) (time_bytes n) n
  unfolding get_time
  get_time-Takes n h =
      rw (bytes_time-time_bytes n h) at
        (word-Takes 8 bytes_time (time_bytes n) (omega arith) (length-time_bytes n))

  -- a round of the loop of `get_str` that gets `m` bytes
  round :
      (next : List ℕ → Read k.State (List ℕ)) (b : ℕ) (bytes rest : List ℕ) (m : ℕ) (s s1 : k.State)
      (r : Recv × k.State)
      → 0 < m
      → m ≤ length (b ∷ bytes)
      → d.pending s ≡ (b ∷ bytes) ++ rest
      → r ≡ (received (take m (d.pending s)), s1)
      → d.pending s1 ≡ drop m (d.pending s)
      → (chunk next r ≡ next (take m (b ∷ bytes)) s1) × (d.pending s1 ≡ drop m (b ∷ bytes) ++ rest)
  round next b bytes rest zero s s1 r h l e got left = elim h [ ]
  round next b bytes rest (suc m) s s1 r h l e got left = (
    rw
        (got
          ∙ ap (λ x. (received x, s1))
              (ap (take (suc m)) e ∙ take-append_left (suc m) (b ∷ bytes) rest l))
        refl,
    left ∙ ap (drop (suc m)) e ∙ drop-append_left (suc m) (b ∷ bytes) rest l,
  )

  -- however the bytes that are left come in
  get_str_loop_lem :
      (fuel len : ℕ) (str bytes : List ℕ)
      → len ≡ length str + length bytes
      → length bytes ≤ fuel
      → Takes (get_str_loop k fuel len str) bytes (str ++ bytes)
  unfolding get_str_loop
  get_str_loop_lem zero len str [] e h s rest p = (s, rw (append-nil str) (ground (arith)), p)
  get_str_loop_lem zero len str (b ∷ bytes) e h s rest p = elim h [ ]
  get_str_loop_lem (suc fuel) len str [] e h s rest p = (s, rw (append-nil str) (ground (arith)), p)
  get_str_loop_lem (suc fuel) len str (b ∷ bytes) e h s rest p =
      let all : List ℕ = b ∷ bytes in
      let (m, s1, pos_m, le_m, got, left) =
        d.some_bytes s (len - length str) (omega arith)
          (omega (arith, ap length p, length-append all rest)) in
      let (now, later) =
        round (λ bs s'. get_str_loop k fuel len (str ++ bs) s') b bytes rest m s s1 _ pos_m
          (omega (arith)) p got left in
      let (s2, ran, done) =
        get_str_loop_lem fuel len (str ++ take m all) (drop m all)
          (omega (arith, length-append str (take m all), length-take m all, length-drop m all))
          (omega (arith, length-drop m all)) s1 rest later in
      (
        s2,
        rw (lt→ltb (length str) len (omega arith)) (
            now
            ∙ ran
            ∙ ap (λ l. (some l, s2))
                (append_assoc str (take m all) (drop m all)
                  ∙ ap (λ l. str ++ l) (take-append-drop m all))),
        done,
      )

  -- `get_str` returns the string that `packet_buf_add_str` or `send_str` has sent, in however many
  -- pieces it arrives, if it is no longer than `MAX_SEND_STRING`.
  pub get_str-Takes :
      (str : Str)
      → IsString str
      → length str ≤ max_send_string
      → Takes (get_str k) (str_bytes str) str
  unfolding get_str
  get_str-Takes str h l =
      bind-Takes (get_int k) _ (int_bytes (pos (length str))) str (pos (length str)) str
        (get_int-Takes (pos (length str)) (omega arith))
        λ s rest e.
          let (s', ran, left) =
            get_str_loop_lem (length str) (length str) [] str (omega arith) (omega arith) s rest
              e in
          (s', rw (le→leb (length str) max_send_string l, ran, c_string-eq str h) refl, left)
