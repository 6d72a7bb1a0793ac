-- ===== src/Log/Message.antt =====
-- components/src/log/message.rs: log messages and their encoding. A text is the list of its UTF-8
-- bytes.
pub mod Encoding
pub mod Bounds
use nimloth_os.Prelude.{
  ℕ, ◌+◌, ◌-◌, ◌*◌, ◌/◌, ◌%◌, ◌^◌, Bool, not, ◌||◌, Option, none, some, List, [], ◌∷◌, ◌++◌, ◌==◌,
  ltb, if◌then◌else◌, length, get_elem?, take, drop, Outcome, done, panic, assert, unwrap, ◌>>=◌,
  ◌>>◌,
}

abbrev pub max_message_len : ℕ
max_message_len = 512

abbrev pub max_module_len : ℕ
max_module_len = 32

pub data LogLevel : Type 0 where
  error warn info debug trace : LogLevel

-- `level as u8`
abbrev pub code : LogLevel → ℕ
code error = 1
code warn = 2
code info = 3
code debug = 4
code trace = 5

-- `color_code`
abbrev pub color_code : LogLevel → ℕ
color_code error = 31
color_code warn = 93
color_code info = 34
color_code debug = 32
color_code trace = 90

pub record LogMessage : Type 0 where
  pub level : LogLevel
  pub pid : ℕ
  pub cpu_id : ℕ
  pub timestamp : ℕ
  pub module_name : List ℕ
  pub message : List ℕ

unfoldable pub new : LogLevel → ℕ → ℕ → ℕ → List ℕ → List ℕ → Option LogMessage
new level pid cpu_id timestamp module_name message =
    if ltb max_module_len (length module_name) || ltb max_message_len (length message)
    then none
    else some (record {
      level = level;
      pid = pid;
      cpu_id = cpu_id;
      timestamp = timestamp;
      module_name = module_name;
      message = message;
    })

-- `u32::to_le_bytes`, `u16::to_le_bytes` and their inverses
abbrev pub u32_to_le : ℕ → List ℕ
u32_to_le n = n % 256 ∷ n / 2 ^ 8 % 256 ∷ n / 2 ^ 16 % 256 ∷ n / 2 ^ 24 % 256 ∷ []

abbrev pub u16_to_le : ℕ → List ℕ
u16_to_le n = n % 256 ∷ n / 2 ^ 8 % 256 ∷ []

abbrev pub u32_from_le : ℕ → ℕ → ℕ → ℕ → ℕ
u32_from_le a b c d = a + 2 ^ 8 * b + 2 ^ 16 * c + 2 ^ 24 * d

abbrev pub u16_from_le : ℕ → ℕ → ℕ
u16_from_le a b = a + 2 ^ 8 * b

unfoldable pub serialize : LogMessage → List ℕ
serialize m =
    (code m.level ∷ [])
    ++ (u32_to_le m.pid
        ++ ((m.cpu_id ∷ [])
            ++ (u32_to_le m.timestamp
                ++ ((length m.module_name % 2 ^ 8 ∷ [])
                    ++ (u16_to_le (length m.message % 2 ^ 16) ++ (m.module_name ++ m.message))))))

-- `data[i]` and `&data[a..b]`
unfoldable pub index : List ℕ → ℕ → Outcome ℕ
index bytes i = unwrap (get_elem? bytes i)

unfoldable pub slice : List ℕ → ℕ → ℕ → Outcome (List ℕ)
slice bytes a b = do
  assert (not (ltb b a))
  assert (not (ltb (length bytes) b))
  done (take (b - a) (drop a bytes))

unfoldable pub level_of : ℕ → Option LogLevel
level_of n =
    if n == 1
    then some error
    else if n == 2
    then some warn
    else if n == 3
    then some info
    else if n == 4
    then some debug
    else if n == 5
    then some trace
    else none

-- `deserialize`, for `String::from_utf8_lossy`, in three parts: the texts, the lengths with the
-- numbers before them, and the level.
module _ (from_utf8_lossy : List ℕ → List ℕ) where
  unfoldable pub deserialize_texts :
      List ℕ → LogLevel → ℕ → ℕ → ℕ → ℕ → ℕ → Outcome (Option LogMessage)
  unfolding slice
  deserialize_texts bytes level pid cpu_id timestamp module_len message_len =
      if ltb (length bytes) (13 + module_len + message_len) then done none else do
        module_name ← slice bytes 13 (13 + module_len)
        message ← slice bytes (13 + module_len) (13 + module_len + message_len)
        done (
            some (record {
              level = level;
              pid = pid;
              cpu_id = cpu_id;
              timestamp = timestamp;
              module_name = from_utf8_lossy module_name;
              message = from_utf8_lossy message;
            }))

  unfoldable pub deserialize_numbers : List ℕ → LogLevel → Outcome (Option LogMessage)
  unfolding index deserialize_texts
  deserialize_numbers bytes level = do
    p0 ← index bytes 1
    p1 ← index bytes 2
    p2 ← index bytes 3
    p3 ← index bytes 4
    cpu_id ← index bytes 5
    t0 ← index bytes 6
    t1 ← index bytes 7
    t2 ← index bytes 8
    t3 ← index bytes 9
    if ltb (length bytes) 13 then done none else do
      module_len ← index bytes 10
      m0 ← index bytes 11
      m1 ← index bytes 12
      deserialize_texts bytes level (u32_from_le p0 p1 p2 p3) cpu_id (u32_from_le t0 t1 t2 t3)
          module_len (u16_from_le m0 m1)

  unfoldable pub deserialize_body : List ℕ → Option LogLevel → Outcome (Option LogMessage)
  unfolding deserialize_numbers
  deserialize_body bytes none = done none
  deserialize_body bytes (some level) = deserialize_numbers bytes level

  unfoldable pub deserialize : List ℕ → Outcome (Option LogMessage)
  unfolding level_of deserialize_body index
  deserialize bytes =
      if ltb (length bytes) 12
      then done none
      else index bytes 0 >>= λ first. deserialize_body bytes (level_of first)
