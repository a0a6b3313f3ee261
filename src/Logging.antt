-- ===== src/Logging.antt =====
-- app/core/logging_config.py: the configuration of structlog and of the root logger. What a
-- processor does to an event is structlog's; here it has a name. So is what a logger does that was
-- used and cached before a call: it keeps the configuration that it was made with.
use observable_url_shortener.Config.{Settings}
use observable_url_shortener.Prelude.{
  Text, codes, ℕ, Bool, true, Option, none, some, List, [], ◌∷◌, ◌++◌,
}

pub data Processor : Type 0 where
  merge_contextvars add_log_level add_logger_name stack_info_renderer : Processor
  time_stamper : (fmt : Text) → (utc : Bool) → Processor
  exception_renderer : Processor
  wrap_for_formatter remove_processors_meta json_renderer : Processor

-- `structlog.stdlib.ProcessorFormatter`
pub record Formatter : Type 0 where
  pub foreign_pre_chain : List Processor
  pub processors : List Processor

pub data Stream : Type 0 where
  stdout stderr : Stream

pub record Handler : Type 0 where
  pub stream : Stream
  pub formatter : Option Formatter

pub record RootLogger : Type 0 where
  pub handlers : List Handler
  pub level : ℕ

-- The arguments of `structlog.configure`; `level` is that of the wrapper class.
pub record StructlogConfig : Type 0 where
  pub processors : List Processor
  pub level : ℕ
  pub cache_logger_on_first_use : Bool

-- The state of the two libraries; nothing stands for structlog before it is configured.
pub record Logging : Type 0 where
  pub structlog : Option StructlogConfig
  pub root : RootLogger

shared_processors : List Processor
shared_processors =
    merge_contextvars
    ∷ add_log_level
    ∷ add_logger_name
    ∷ time_stamper (codes "iso") true
    ∷ stack_info_renderer
    ∷ exception_renderer
    ∷ []

formatter : Formatter
unfolding shared_processors
formatter = record {
  foreign_pre_chain = shared_processors;
  processors = remove_processors_meta ∷ json_renderer ∷ [];
}

-- The `structlog.configure(…)` of the code.
configure : ℕ → Logging → Logging
unfolding shared_processors
configure level s = record s {
  structlog = some (record {
    processors = shared_processors ++ wrap_for_formatter ∷ [];
    level = level;
    cache_logger_on_first_use = true;
  });
}

clear_handlers : Logging → Logging
clear_handlers s = record s { root = record s.root { handlers = [] } }

add_handler : Handler → Logging → Logging
add_handler handler s = record s {
  root = record s.root { handlers = s.root.handlers ++ handler ∷ [] };
}

set_level : ℕ → Logging → Logging
set_level level s = record s { root = record s.root { level = level } }

-- `upper` is `str.upper`, `attribute` looks a name up in the module `logging`, and `info` is its
-- `logging.INFO`.
module _ (upper : Text → Text) (attribute : Text → Option ℕ) (info : ℕ) where
  level_or : Option ℕ → ℕ
  level_or none = info
  level_or (some level) = level

  numeric_level : Settings → ℕ
  unfolding level_or
  numeric_level settings = level_or (attribute (upper settings.log_level))

  unfoldable pub configure_logging : Settings → Logging → Logging
  unfolding numeric_level configure formatter clear_handlers add_handler set_level
  configure_logging settings s =
      let level = numeric_level settings in
      let handler : Handler = record { stream = stdout; formatter = some formatter } in
      set_level level (add_handler handler (clear_handlers (configure level s)))
