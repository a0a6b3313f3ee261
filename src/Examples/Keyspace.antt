-- ===== src/Examples/Keyspace.antt =====
-- A Redis server as a function from keys to values with deadlines.
use observable_url_shortener.Infra.Redis.{
  RedisServer, Value, text, bucket, Bucket, Reply, reply, redis_error, as_text, as_fields, until,
  refreshed,
}
use observable_url_shortener.Prelude.{
  ltb, if◌then◌else◌, Text, text_eq, text_eq_iff, text_eq_refl, ℕ, ◌+◌, ◌*◌, ◌≤◌, ◌≡◌, refl, ◌⊎◌,
  inl, Bool, true, false, Option, none, some, arith,
}

pub record Item : Type 0 where
  pub value : Value
  pub deadline : Option ℕ

abbrev pub Keyspace : Type 0
Keyspace = Text → Option Item

abbrev pub empty : Keyspace
empty k = none

abbrev in_time : ℕ → Option ℕ → Bool
in_time t none = true
in_time t (some d) = ltb t d

abbrev alive : ℕ → Option Item → Option Value
alive t none = none
alive t (some item) = if in_time t item.deadline then some item.value else none

abbrev look : ℕ → Text → Keyspace → Option Value
look t k s = alive t (s k)

abbrev write : Text → Option Item → Keyspace → Keyspace
write k item s j = if text_eq k j then item else s j

-- The item with its value or its deadline given anew; a dead one is dropped.
abbrev revalued : Value → Option Item → Option Value → Option Item
revalued v old none = some (record { value = v; deadline = none })
revalued v none (some held) = some (record { value = v; deadline = none })
revalued v (some item) (some held) = some (record item { value = v })

abbrev redated : ℕ → Option Value → Option Item
redated d none = none
redated d (some v) = some (record { value = v; deadline = some d })

abbrev after_getex : ℕ → Text → Option Value → Keyspace → Keyspace
after_getex d k (some (text v)) s = write k (redated d (some (text v))) s
after_getex d k held s = s

abbrev expire : ℕ → Text → Option ℕ → Keyspace → Reply (Unit {0}) × Keyspace
expire t k none s = (redis_error, s)
expire t k (some ms) s = (reply tt, write k (redated (t + ms) (look t k s)) s)

pub alive_later :
    (t t' : ℕ) (o : Option Item) → t ≤ t' → (alive t' o ≡ none) ⊎ (alive t' o ≡ alive t o)
alive_later t t' none h = inl refl
alive_later t t' (some item) h = ground arith

pub getex_look :
    (t t' d : ℕ) (k j : Text) (s : Keyspace) (held : Option Value)
    → look t k s ≡ held
    → look t' j (after_getex d k held s)
      ≡ (if text_eq k j then refreshed d t' held (look t' k s) else look t' j s)
getex_look t t' d k j s none e = ground (arith, text_eq_iff k j)
getex_look t t' d k j s (some (text v)) e = ground arith
getex_look t t' d k j s (some (bucket b)) e = ground (arith, text_eq_iff k j)

pub expire_look :
    (t' d : ℕ) (k j : Text) (s : Keyspace) (held : Option Value)
    → look t' j (write k (redated d held) s)
      ≡ (if text_eq k j then until d t' held else look t' j s)
expire_look t' d k j s none = ground arith
expire_look t' d k j s (some v) = ground arith

alive-revalued :
    (t : ℕ) (v : Value) (old : Option Item) → alive t (revalued v old (alive t old)) ≡ some v
alive-revalued t v none = refl
alive-revalued t v (some item) = ground arith

pub hset_look :
    (t : ℕ) (k : Text) (b : Bucket) (s : Keyspace)
    → look t k (write k (revalued (bucket b) (s k) (look t k s)) s) ≡ some (bucket b)
hset_look t k b s = rw (text_eq_refl k) (alive-revalued t (bucket b) (s k))

pub delete_look :
    (t' : ℕ) (k j : Text) (s : Keyspace)
    → look t' j (write k none s) ≡ (if text_eq k j then none else look t' j s)
delete_look t' k j s = ground arith

pub write-look_other :
    (t' : ℕ) (k j : Text) (item : Option Item) (s : Keyspace)
    → text_eq k j ≡ false
    → look t' j (write k item s) ≡ look t' j s
write-look_other t' k j item s h = rw h refl

instance abbrev pub keyspace : RedisServer Keyspace
keyspace = record {
  peek = look;
  getex = λ t k ex s. (as_text (look t k s), after_getex (t + ex * 1000) k (look t k s) s);
  set = λ t k v ex s. write k (redated (t + ex * 1000) (some (text v))) s;
  delete = λ t k s. write k none s;
  hmget = λ t k s. as_fields (look t k s);
  hset = λ t k b s. write k (revalued (bucket b) (s k) (look t k s)) s;
  pexpire = expire;
  peek_later = λ t t' k s h. alive_later t t' (s k) h;
  getex_reply = λ t ex k s. refl;
  getex_peek = λ t t' ex k j s h p. getex_look t t' (t + ex * 1000) k j s (look t k s) refl;
  set_peek = λ t t' ex k j v s h p. expire_look t' (t + ex * 1000) k j s (some (text v));
  delete_peek = λ t t' k j s h. delete_look t' k j s;
  hmget_reply = λ t k s. refl;
  hset_peek_self = λ t k b s h. hset_look t k b s;
  hset_peek_other =
      λ t t' k j b s h e. write-look_other t' k j (revalued (bucket b) (s k) (look t k s)) s e;
  pexpire_infinite = λ t k s. refl;
  pexpire_reply = λ t ms k s. refl;
  pexpire_peek = λ t t' ms k j s h p. expire_look t' (t + ms) k j s (look t k s);
}
