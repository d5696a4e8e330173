-- ===== src/Logger.antt =====
-- logger/logger.go: the lines of the log, and where they go. What is logged is shown nowhere else.
use loopix_messaging.Prelude.{
  [], ◌∷◌, ◌++◌, Bool, Option, none, some, Bytes, bytes, Result, ok, panic, ◌>>=◌, length, take,
  ltb, ◌==◌, equal, if◌then◌else◌,
}

-- The levels of logrus.
pub data Level : Type 0 where
  trace debug info warn error fatal panics : Level

-- What logrus and `time` do: the text of a level and its reading, the upper case of a text, and how
-- a time is printed.
pub record Logrus (Time : Type 0) : Type 0 where
  pub text_of_level : Level → Bytes
  pub parse_level : Bytes → Result Level
  pub to_upper : Bytes → Bytes
  pub format_time : Bytes → Time → Bytes

pub record Entry (Time : Type 0) : Type 0 where
  pub level : Level
  pub time : Time
  pub message : Bytes
  -- the full name of the function that logged, where it is known
  pub caller : Option Bytes

unfoldable pub level_color : Level → Bytes
level_color trace = bytes "36"
level_color debug = bytes "34"
level_color info = bytes "32"
level_color warn = bytes "33"
level_color error = bytes "31"
level_color fatal = bytes "35"
level_color panics = bytes "35"

-- What follows the last dot; all of it where there is none.
unfoldable pub after_dot : Bytes → Bytes → Bytes
after_dot last [] = last
after_dot last (x ∷ b) = after_dot (if x == 46 then b else last) b

abbrev pub caller_string : Bytes → Option Bytes → Bytes
caller_string module_ none = module_
caller_string module_ (some name) = module_ ++ (bytes "/" ++ after_dot name name)

-- ESC, `[`, the number of a colour and `m`.
abbrev pub colored : Bytes → Bytes
colored color = 27 ∷ (bytes "[" ++ (color ++ bytes "m"))

module _ {Time : Type 0} (lib : Logrus Time) where
  -- `Format` of a formatter for a module. The text of a level is cut to four letters, and the code
  -- panics where it has fewer.
  unfoldable pub format : Bytes → Bytes → Entry Time → Result Bytes
  unfolding level_color after_dot
  format module_ timestamp_format entry =
      let level_text = lib.to_upper (lib.text_of_level entry.level) in
      if ltb (length level_text) 4
      then panic
      else ok (
          colored (bytes "37")
          ++ (bytes "["
              ++ (lib.format_time timestamp_format entry.time
                  ++ (bytes "]"
                      ++ (colored (bytes "0")
                          ++ (colored (level_color entry.level)
                              ++ (bytes " "
                                  ++ (caller_string module_ entry.caller
                                      ++ ((32 ∷ 0xe2 ∷ 0x96 ∷ 0xb6 ∷ 32 ∷ [])
                                          ++ (take 4 level_text
                                              ++ (bytes " "
                                                  ++ (colored (bytes "0")
                                                      ++ (bytes "- "
                                                          ++ (entry.message
                                                            ++ (10 ∷ [])))))))))))))))

-- Where the lines go.
pub data Output : Type 0 where
  discard stdout : Output
  file : Bytes → Output

pub record Logger : Type 0 where
  pub log_out : Output
  pub level : Level

-- `open_file` is what opening a file for appending gives.
unfoldable pub new_logger :
    (Bytes → Result Level) → (Bytes → Result (Unit {0})) → Bytes → Bytes → Bool → Result Logger
new_logger parse_level open_file f level disable = do
  lvl ← parse_level level
  if disable
      then ok (record { log_out = discard; level = lvl })
      else if equal f []
      then ok (record { log_out = stdout; level = lvl })
      else (open_file f >>= λ opened. ok (record { log_out = file f; level = lvl }))
