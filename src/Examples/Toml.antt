-- ===== src/Examples/Toml.antt =====
-- A reader of configuration files: it takes what stands between quotes, in its order.
use loopix_messaging.Prelude.{
  ℕ, ◌≡◌, refl, sym, ap, ◌∙◌, List, [], ◌∷◌, ◌++◌, Bool, true, false, not, ◌&&◌, ◌==◌, some, Bytes,
  Result, ok, err, arith, library, equal, if◌then◌else◌, ok_injective, append_assoc,
}
use loopix_messaging.Messages.{Float64}
use loopix_messaging.Client.Config.{Client, Logging, Debug, Config, default_debug_config}
use loopix_messaging.Client.Config.Template.{
  Place, at_id, at_directory_server_topology, at_private_key, at_public_key, at_provider_id,
  at_mix_apps_directory, at_home_directory, at_disable, at_file, at_level,
  at_loop_cover_traffic_rate, at_fetch_message_rate, at_message_sending_rate, at_covers_disabled,
  places, text_before, text_of, value_at, fill_in, execute_template,
}
use loopix_messaging.Cmd.Client.Written.{is_plain, IsPlain}

abbrev on_first : ℕ → List Bytes → List Bytes
on_first x [] = (x ∷ []) ∷ []
on_first x (f ∷ fs) = (x ∷ f) ∷ fs

on_quotes : Bytes → List Bytes
on_quotes [] = [] ∷ []
on_quotes (x ∷ b) = let rest = on_quotes b in if x == 34 then [] ∷ rest else on_first x rest

abbrev no_quote : Bytes → Bool
no_quote [] = true
no_quote (x ∷ b) = not (x == 34) && no_quote b

no_quote-plain : (s : Bytes) → is_plain s ≡ true → no_quote s ≡ true
no_quote-plain [] h = refl
no_quote-plain (x ∷ s) h = ground (arith, no_quote-plain s)

on_quotes-quote :
    (s rest : Bytes) → no_quote s ≡ true → on_quotes (s ++ (34 ∷ rest)) ≡ s ∷ on_quotes rest
unfolding on_quotes
on_quotes-quote [] rest h = refl
on_quotes-quote (x ∷ s) rest h = ground (arith, on_quotes-quote s rest)

-- A value, and the text up to the next quote.
on_quotes-value :
    (s text inner rest : Bytes)
    → text ≡ 34 ∷ (inner ++ (34 ∷ []))
    → no_quote inner ≡ true
    → is_plain s ≡ true
    → on_quotes (s ++ (text ++ rest)) ≡ s ∷ inner ∷ on_quotes rest
on_quotes-value s text inner rest e h plain =
    ap (λ t. on_quotes (s ++ (t ++ rest))) e
    ∙ (ap (λ t. on_quotes (s ++ (34 ∷ t))) (append_assoc inner (34 ∷ []) rest)
        ∙ (on_quotes-quote s (inner ++ (34 ∷ rest)) (no_quote-plain s plain)
            ∙ ap (λ t. s ∷ t) (on_quotes-quote inner rest h)))

-- What stands between the quotes of a text that ends with one.
abbrev front : Bytes → Bytes
front [] = []
front (x ∷ []) = []
front (x ∷ y ∷ b) = x ∷ front (y ∷ b)

abbrev inside : Bytes → Bytes
inside [] = []
inside (x ∷ b) = front b

inner_of : Place → Bytes
inner_of p = inside (text_before p)

-- The text around the flag of the logging part.
around : Bool → Bytes
around b = inside (text_before at_disable ++ (text_of b ++ text_before at_file))

around_eq :
    (b : Bool)
    → text_before at_disable ++ (text_of b ++ text_before at_file) ≡ 34 ∷ (around b ++ (34 ∷ []))
unfolding around text_before
around_eq true = refl
around_eq false = refl

around-no_quote : (b : Bool) → no_quote (around b) ≡ true
unfolding around text_before
around-no_quote true = refl
around-no_quote false = refl

around_flag : (b : Bool) → equal (around b) (around true) ≡ b
unfolding around text_before equal
around_flag true = refl
around_flag false = refl

head_of : Bytes
head_of = front (text_before at_id)

abbrev with_flag : Client → Logging → Bool → Config
with_flag c l b = record {
  client = some c;
  logging = some (record l { disable = b });
  debug = some (record default_debug_config { message_sending_rate = 0 });
}

abbrev read_parts : List Bytes → Result Config
read_parts (_ ∷ i ∷ _ ∷ e ∷ _ ∷ k ∷ _ ∷ p ∷ _ ∷ v ∷ _ ∷ a ∷ _ ∷ h ∷ d ∷ f ∷ _ ∷ n ∷ _) =
    ok (record {
      client = some (record {
        home_directory = h;
        id = i;
        directory_server_topology_endpoint = e;
        mix_apps_directory = a;
        private_key = k;
        public_key = p;
        provider_id = v;
      });
      logging = some (record { disable = equal d (around true); file = f; level = n });
      debug = some (record default_debug_config { message_sending_rate = 0 });
    })
read_parts _ = err (library 4)

pub read_toml : Bytes → Result Config
read_toml b = read_parts (on_quotes b)

abbrev tail_of : Bytes → Bytes
tail_of [] = []
tail_of (x ∷ b) = b

loop_eq :
    text_before at_loop_cover_traffic_rate ≡ 34 ∷ tail_of (text_before at_loop_cover_traffic_rate)
unfolding text_before
loop_eq = refl

regroup : (a b c d : Bytes) → a ++ (b ++ (c ++ d)) ≡ (a ++ (b ++ c)) ++ d
regroup a b c d = sym (append_assoc a (b ++ c) d ∙ ap (λ t. a ++ t) (append_assoc b c d))

-- What follows the text behind the level.
abbrev fill_rest : (Place → Bytes) → Bytes
fill_rest value =
    value at_loop_cover_traffic_rate
    ++ fill_in value (at_fetch_message_rate ∷ at_message_sending_rate ∷ at_covers_disabled ∷ [])

text_inner :
    (text_before at_directory_server_topology
      ≡ 34 ∷ (inner_of at_directory_server_topology ++ (34 ∷ [])))
    × (text_before at_private_key ≡ 34 ∷ (inner_of at_private_key ++ (34 ∷ [])))
    × (text_before at_public_key ≡ 34 ∷ (inner_of at_public_key ++ (34 ∷ [])))
    × (text_before at_provider_id ≡ 34 ∷ (inner_of at_provider_id ++ (34 ∷ [])))
    × (text_before at_mix_apps_directory ≡ 34 ∷ (inner_of at_mix_apps_directory ++ (34 ∷ [])))
    × (text_before at_home_directory ≡ 34 ∷ (inner_of at_home_directory ++ (34 ∷ [])))
    × (text_before at_level ≡ 34 ∷ (inner_of at_level ++ (34 ∷ [])))
unfolding inner_of text_before
text_inner = (refl, refl, refl, refl, refl, refl, refl)

inner-no_quote :
    (no_quote (inner_of at_directory_server_topology) ≡ true)
    × (no_quote (inner_of at_private_key) ≡ true)
    × (no_quote (inner_of at_public_key) ≡ true)
    × (no_quote (inner_of at_provider_id) ≡ true)
    × (no_quote (inner_of at_mix_apps_directory) ≡ true)
    × (no_quote (inner_of at_home_directory) ≡ true)
    × (no_quote (inner_of at_level) ≡ true)
unfolding inner_of text_before
inner-no_quote = (refl, refl, refl, refl, refl, refl, refl)

head_eq : text_before at_id ≡ head_of ++ (34 ∷ [])
unfolding head_of text_before
head_eq = refl

head-no_quote : no_quote head_of ≡ true
unfolding head_of text_before
head-no_quote = refl

on_quotes-head : (rest : Bytes) → on_quotes (text_before at_id ++ rest) ≡ head_of ∷ on_quotes rest
on_quotes-head rest =
    ap (λ t. on_quotes (t ++ rest)) head_eq
    ∙ (ap on_quotes (append_assoc head_of (34 ∷ []) rest)
        ∙ on_quotes-quote head_of rest head-no_quote)

-- The last value that is read; the text behind it begins with a quote.
on_quotes-level :
    (s rest : Bytes)
    → is_plain s ≡ true
    → (more : List Bytes) × (on_quotes (s ++ (text_before at_loop_cover_traffic_rate ++ rest))
        ≡ s ∷ more)
on_quotes-level s rest plain =
    let text = tail_of (text_before at_loop_cover_traffic_rate) in
    (
      on_quotes (text ++ rest),
      ap (λ t. on_quotes (s ++ (t ++ rest))) loop_eq
          ∙ on_quotes-quote s (text ++ rest) (no_quote-plain s plain),
    )

-- What stands between the quotes of a file that the template gives.
parts_read :
    (format : Float64 → Bytes) (c : Client) (l : Logging) (d : Debug)
    → IsPlain c l
    → (more : List Bytes) × (on_quotes (fill_in (value_at format c l d) places)
        ≡ head_of
          ∷ c.id
          ∷ inner_of at_directory_server_topology
          ∷ c.directory_server_topology_endpoint
          ∷ inner_of at_private_key
          ∷ c.private_key
          ∷ inner_of at_public_key
          ∷ c.public_key
          ∷ inner_of at_provider_id
          ∷ c.provider_id
          ∷ inner_of at_mix_apps_directory
          ∷ c.mix_apps_directory
          ∷ inner_of at_home_directory
          ∷ c.home_directory
          ∷ around l.disable
          ∷ l.file
          ∷ inner_of at_level
          ∷ l.level
          ∷ more)
parts_read format c l d
      (home, (id, (endpoint, (apps, (private, (public, (provider, (file, (level, end))))))))) =
    let value = value_at format c l d in
    let (more, last) = on_quotes-level l.level (fill_rest value) level in
    let (te, tk, tp, tv, ta, th, tl) = text_inner in
    let (ne, nk, np, nv, na, nh, nl) = inner-no_quote in
    (
      more,
      on_quotes-head _
          ∙ ap (λ t. head_of ∷ t)
              (on_quotes-value c.id _ _ _ te ne id
                ∙ ap (λ t. c.id ∷ inner_of at_directory_server_topology ∷ t)
                    (on_quotes-value c.directory_server_topology_endpoint _ _ _ tk nk endpoint
                      ∙ ap (λ t. c.directory_server_topology_endpoint ∷ inner_of at_private_key ∷ t)
                          (on_quotes-value c.private_key _ _ _ tp np private
                            ∙ ap (λ t. c.private_key ∷ inner_of at_public_key ∷ t)
                                (on_quotes-value c.public_key _ _ _ tv nv public
                                  ∙ ap (λ t. c.public_key ∷ inner_of at_provider_id ∷ t)
                                      (on_quotes-value c.provider_id _ _ _ ta na provider
                                        ∙ ap
                                            (λ t.
                                              c.provider_id ∷ inner_of at_mix_apps_directory ∷ t)
                                            (on_quotes-value c.mix_apps_directory _ _ _ th nh apps
                                              ∙ ap
                                                  (λ t.
                                                    c.mix_apps_directory
                                                    ∷ inner_of at_home_directory
                                                    ∷ t)
                                                  (ap (λ t. on_quotes (c.home_directory ++ t))
                                                      (regroup (text_before at_disable)
                                                        (text_of l.disable) (text_before at_file)
                                                        (l.file
                                                          ++ (text_before at_level
                                                            ++ (l.level
                                                            ++ (text_before
                                                            at_loop_cover_traffic_rate
                                                            ++ fill_rest value)))))
                                                    ∙ on_quotes-value c.home_directory _ _ _
                                                        (around_eq l.disable)
                                                        (around-no_quote l.disable) home
                                                    ∙ ap
                                                        (λ t.
                                                          c.home_directory ∷ around l.disable ∷ t)
                                                        (on_quotes-value l.file _ _ _ tl nl file
                                                          ∙ ap (λ t. l.file ∷ inner_of at_level ∷ t)
                                                            last)))))))),
    )

-- A file that the template gives is read back, but for the sending rate.
pub read_toml-execute_template :
    (format : Float64 → Bytes) (c : Client) (l : Logging) (content : Bytes)
    → IsPlain c l
    → execute_template format
        (record { client = some c; logging = some l; debug = some default_debug_config })
      ≡ ok content
    → read_toml content
      ≡ ok (record {
        client = some c;
        logging = some l;
        debug = some (record default_debug_config { message_sending_rate = 0 });
      })
unfolding execute_template read_toml
read_toml-execute_template format c l content plain made =
    let (more, parts) = parts_read format c l default_debug_config plain in
    ap read_toml (sym (ok_injective _ content made))
    ∙ (ap read_parts parts ∙ ap (λ b. ok (with_flag c l b)) (around_flag l.disable))
