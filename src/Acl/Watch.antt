-- ===== src/Acl/Watch.antt =====
-- ext/acl/watcher.go, `New` of acl.go and `WithConfig` of option.go: the options that are stored, and
-- how they are loaded and reloaded. The file is what it is at the moment of a call; a time is a
-- number, and 0 is the zero time.
use xun.Base.{ℕ, suc, Option, none, some, List, [], ◌∷◌, Bytes, length, ltb, if◌then◌else◌}
use xun.Acl.Options.{Net, Options, new_options}
use xun.Acl.Config.{section_na, lines, load_sections}

-- What os.Stat and os.OpenFile find: no time, or no text, is an error.
pub record File : Type 0 where
  pub mod_time : Option ℕ
  pub text : Option Bytes

-- getLastMod
unfoldable pub get_last_mod : File → ℕ
get_last_mod f = elim f.mod_time [ none ↦ 0 | some t ↦ t ]

-- `v` and the variable lastMod of `watch`.
pub record Watch : Type 0 where
  pub current : Options
  pub last_mod : ℕ

-- What the reloaded options keep of the old ones.
unfoldable pub fresh : Bytes → Options → Options
unfolding new_options
fresh file o = record new_options {
  config = file;
  viewer_name = o.viewer_name;
  lookup_func = o.lookup_func;
}

-- watch, in front of its loop.
unfoldable pub watch : Options → File → Watch
unfolding get_last_mod
watch o f = record { current = o; last_mod = get_last_mod f }

module _ (net : Net) where
  -- loadOptions; `none` is false. The fuel is one more than the lines.
  unfoldable pub load_options : File → Options → Option Options
  unfolding lines load_sections
  load_options f o = elim f.text [
    | none ↦ none
    | some text ↦ load_sections net (suc (length (lines text))) section_na (lines text) o
  ]

  -- WithConfig: whether the file was read makes no difference to it.
  unfoldable pub with_config : Bytes → File → Options → Options
  unfolding load_options
  with_config file f o = elim (load_options f (record o { config = file })) [
    | none ↦ record o { config = file }
    | some o' ↦ o'
  ]

  -- New, up to the middleware: the options applied in order.
  unfoldable pub apply_options : List (Options → Options) → Options → Options
  apply_options [] o = o
  apply_options (opt ∷ opts) o = apply_options opts (opt o)

  unfoldable pub new : List (Options → Options) → Options
  unfolding apply_options new_options
  new opts = apply_options opts new_options

  abbrev store : Watch → ℕ → Option Options → Watch
  store w mod_time none = w
  store w mod_time (some o) = record { current = o; last_mod = mod_time }

  -- The body of the loop, at a tick.
  unfoldable pub tick : Bytes → Watch → File → Watch
  unfolding get_last_mod load_options fresh
  tick file w f =
      if ltb w.last_mod (get_last_mod f)
      then store w (get_last_mod f) (load_options f (fresh file w.current))
      else w

  -- The ticks until the watcher is stopped.
  unfoldable pub ticks : Bytes → Watch → List File → Watch
  unfolding tick
  ticks file w [] = w
  ticks file w (f ∷ fs) = ticks file (tick file w f) fs
