-- ===== src/Log/Message/Encoding.antt =====
-- The encoding of log messages read back, and `deserialize` on any bytes.
use nimloth_os.Prelude.{
  ℕ, ◌+◌, ◌-◌, ◌/◌, ◌%◌, ◌^◌, ◌≡◌, ◌<◌, ◌≤◌, refl, ap, sym, ◌∙◌, inl, inr, Bool-cases, false, ◌||◌,
  some, List, [], ◌∷◌, ◌++◌, append_assoc, ltb, length, drop, length-append, take-length_append,
  drop-length_append, arith, done,
}
use nimloth_os.Log.Message.{
  LogLevel, error, warn, info, debug, trace, LogMessage, code, new, u32_from_le, u16_from_le,
  serialize, index, slice, level_of, deserialize, deserialize_numbers, deserialize_texts,
  max_message_len, max_module_len,
}

slice-append :
    (pre mid post : List ℕ) (a b : ℕ)
    → a ≡ length pre
    → b ≡ length pre + length mid
    → slice (pre ++ (mid ++ post)) a b ≡ done mid
unfolding slice
slice-append pre mid post a b ea eb =
    let len : length (pre ++ (mid ++ post)) ≡ length pre + (length mid + length post) =
      omega (arith, length-append pre (mid ++ post), length-append mid post) in
    let c1 : ltb b a ≡ false = ground arith in
    let c2 : ltb (length (pre ++ (mid ++ post))) b ≡ false = ground (arith, len) in
    let d : b - a ≡ length mid = omega (arith, ea, eb) in
    rw (c1, c2, d, ea, drop-length_append pre (mid ++ post)) (ap done (take-length_append mid post))

level_of-code : (level : LogLevel) → level_of (code level) ≡ some level
unfolding level_of
level_of-code error = refl
level_of-code warn = refl
level_of-code info = refl
level_of-code debug = refl
level_of-code trace = refl

-- The thirteen bytes before the texts.
abbrev header : LogMessage → List ℕ
header m =
    code m.level
    ∷ m.pid % 256
    ∷ m.pid / 2 ^ 8 % 256
    ∷ m.pid / 2 ^ 16 % 256
    ∷ m.pid / 2 ^ 24 % 256
    ∷ m.cpu_id
    ∷ m.timestamp % 256
    ∷ m.timestamp / 2 ^ 8 % 256
    ∷ m.timestamp / 2 ^ 16 % 256
    ∷ m.timestamp / 2 ^ 24 % 256
    ∷ length m.module_name % 2 ^ 8
    ∷ length m.message % 2 ^ 16 % 256
    ∷ length m.message % 2 ^ 16 / 2 ^ 8 % 256
    ∷ []

serialize-header :
    (m : LogMessage) (rest : List ℕ)
    → serialize m ++ rest ≡ header m ++ (m.module_name ++ (m.message ++ rest))
unfolding serialize
serialize-header m rest = ap (λ t. header m ++ t) (append_assoc m.module_name m.message rest)

pub new-bounds :
    (m : LogMessage)
    → new m.level m.pid m.cpu_id m.timestamp m.module_name m.message ≡ some m
    → (length m.module_name ≤ max_module_len) × (length m.message ≤ max_message_len)
unfolding new
new-bounds m h =
    elim (Bool-cases
      (ltb max_module_len (length m.module_name) || ltb max_message_len (length m.message))) [
        | inl e ↦ cc (rw e at h)
        | inr e ↦ (ground arith, ground arith)
      ]

module _ (from_utf8_lossy : List ℕ → List ℕ) where
  texts_read :
      (pre mod_name msg rest : List ℕ) (level : LogLevel) (pid cpu_id timestamp : ℕ) (a b : ℕ)
      → length pre ≡ 13
      → a ≡ length mod_name
      → b ≡ length msg
      → from_utf8_lossy mod_name ≡ mod_name
      → from_utf8_lossy msg ≡ msg
      → deserialize_texts from_utf8_lossy
          (pre ++ (mod_name ++ (msg ++ rest)))
          level
          pid
          cpu_id
          timestamp
          a
          b
        ≡ done (
            some (record {
              level = level;
              pid = pid;
              cpu_id = cpu_id;
              timestamp = timestamp;
              module_name = mod_name;
              message = msg;
            }))
  unfolding deserialize_texts
  texts_read pre mod_name msg rest level pid cpu_id timestamp a b n ea eb l1 l2 =
      let all = mod_name ++ (msg ++ rest) in
      let len : length (pre ++ all) ≡ 13 + (length mod_name + (length msg + length rest)) = omega (
        arith,
        n,
        length-append pre all,
        length-append mod_name (msg ++ rest),
        length-append msg rest,
      ) in
      let c : ltb (length (pre ++ all)) (13 + a + b) ≡ false = ground (arith, len) in
      let s1 : slice (pre ++ all) 13 (13 + a) ≡ done mod_name =
        slice-append pre mod_name (msg ++ rest) 13 (13 + a) (sym n) (omega (arith, n, ea)) in
      let s2 : slice (pre ++ all) (13 + a) (13 + a + b) ≡ done msg =
        rw (append_assoc pre mod_name (msg ++ rest)) at (
          slice-append (pre ++ mod_name) msg rest (13 + a) (13 + a + b)
            (omega (arith, n, ea, length-append pre mod_name))
            (omega (arith, n, ea, eb, length-append pre mod_name))) in
      rw (s1, s2, c, l1, l2) refl

  numbers_read :
      (m : LogMessage) (rest : List ℕ)
      → m.pid < 2 ^ 32
      → m.timestamp < 2 ^ 32
      → length m.module_name ≤ max_module_len
      → length m.message ≤ max_message_len
      → from_utf8_lossy m.module_name ≡ m.module_name
      → from_utf8_lossy m.message ≡ m.message
      → deserialize_numbers from_utf8_lossy
          (header m ++ (m.module_name ++ (m.message ++ rest)))
          m.level
        ≡ done (some m)
  unfolding deserialize_numbers
  numbers_read m rest hp ht hm hs l1 l2 =
      let pid : u32_from_le (m.pid % 256) (m.pid / 2 ^ 8 % 256) (m.pid / 2 ^ 16 % 256)
            (m.pid / 2 ^ 24 % 256)
          ≡ m.pid =
        omega (arith, hp) in
      let time : u32_from_le (m.timestamp % 256) (m.timestamp / 2 ^ 8 % 256)
            (m.timestamp / 2 ^ 16 % 256) (m.timestamp / 2 ^ 24 % 256)
          ≡ m.timestamp =
        omega (arith, ht) in
      let c : ltb (length (header m ++ (m.module_name ++ (m.message ++ rest)))) 13 ≡ false =
        ground arith in
      rw (c, pid, time)
        (texts_read (header m) m.module_name m.message rest m.level m.pid m.cpu_id m.timestamp
          (length m.module_name % 2 ^ 8)
          (u16_from_le (length m.message % 2 ^ 16 % 256) (length m.message % 2 ^ 16 / 2 ^ 8 % 256))
          refl (omega (arith, hm)) (omega (arith, hs)) l1 l2)

  body_read :
      (bytes : List ℕ) (level : LogLevel) (tail : List ℕ)
      → bytes ≡ code level ∷ tail
      → 12 ≤ length bytes
      → deserialize from_utf8_lossy bytes ≡ deserialize_numbers from_utf8_lossy bytes level
  unfolding deserialize
  body_read bytes level tail e h =
      let c : ltb (length bytes) 12 ≡ false = ground arith in
      let first : index bytes 0 ≡ done (code level) = unfold index in rw e refl in
      rw (c, first, level_of-code level) refl

  -- `deserialize` reads a message that `new` accepted, and whose numbers fit their fields, back from
  -- its encoding, whatever bytes follow, provided that `from_utf8_lossy` keeps the bytes of its two
  -- texts, as it does for UTF-8.
  pub deserialize-serialize :
      (m : LogMessage) (rest : List ℕ)
      → new m.level m.pid m.cpu_id m.timestamp m.module_name m.message ≡ some m
      → m.pid < 2 ^ 32
      → m.timestamp < 2 ^ 32
      → from_utf8_lossy m.module_name ≡ m.module_name
      → from_utf8_lossy m.message ≡ m.message
      → deserialize from_utf8_lossy (serialize m ++ rest) ≡ done (some m)
  unfolding deserialize
  deserialize-serialize m rest h hp ht l1 l2 =
      let (hm, hs) = new-bounds m h in
      rw (serialize-header m rest) (
        body_read (header m ++ (m.module_name ++ (m.message ++ rest))) m.level
          (drop 1 (header m) ++ (m.module_name ++ (m.message ++ rest))) refl (ground arith)
        ∙ numbers_read m rest hp ht hm hs l1 l2)
