-- ===== src/Detect/Usage.antt =====
-- internal/detect/anomaly.go: the helpers on usage events, on places and on buckets of an hour.
use identity_attack_graph.Prelude.{
  ℕ, zero, suc, ◌+◌, ◌-◌, ◌*◌, ◌%◌, ◌==◌, nat_eq, string_eq, String, Bool, false, not, ◌||◌, List,
  [], ◌∷◌, ◌++◌, foldl, keep, length, Option, some, none, leb, if◌then◌else◌,
}
unfoldable use identity_attack_graph.Prelude.{contains}
use identity_attack_graph.Prelude.Int.{ℤ, pos, negsuc, beq_ℤ}
use identity_attack_graph.Prelude.Map.{Map, find}
use identity_attack_graph.Models.{Time, FloatBits, UsageEvent}
use identity_attack_graph.Detect.Support.{Floats}

-- `parse_ip` is `net.ParseIP`, and `in_range` tells whether a text is a CIDR range that contains
-- the address.
module _ {Ip : Type 0} (parse_ip : String → Option Ip) (in_range : String → Ip → Bool) where
  unfoldable pub some_range : List String → Ip → Bool
  some_range [] p = false
  some_range (c ∷ cidrs) p = in_range c p || some_range cidrs p

  unfoldable pub egress_allowed : String → List String → Bool
  unfolding some_range
  egress_allowed ip cidrs =
      if ip == "" || length cidrs == 0
      then false
      else elim (parse_ip ip) [ none ↦ false | some p ↦ some_range cidrs p ]

  unfoldable pub filter_egress : List UsageEvent → List String → List UsageEvent
  unfolding egress_allowed
  filter_egress evs [] = evs
  filter_egress evs (c ∷ cidrs) =
      keep (λ (e : UsageEvent). not (egress_allowed e.src_ip (c ∷ cidrs))) evs

-- `evs[:len(evs)-1]` and `evs[len(evs)-1]`
unfoldable pub split_last {ℓ} : {A : Type ℓ} → List A → Option (List A × A)
split_last [] = none
split_last (a ∷ []) = some ([], a)
split_last (a ∷ b ∷ as_given) = elim (split_last (b ∷ as_given)) [
  | none ↦ none
  | some (before, last) ↦ some (a ∷ before, last)
]

unfoldable pub usage_with_geo : List UsageEvent → List UsageEvent
usage_with_geo = keep (λ (e : UsageEvent). not (e.src_country == ""))

-- The keys of a map from texts to true.
unfoldable pub add_text : List String → String → List String
unfolding contains
add_text keys s = if s == "" || contains keys s then keys else keys ++ s ∷ []

unfoldable pub baseline_countries : List UsageEvent → List String
unfolding add_text
baseline_countries evs = foldl (λ keys (e : UsageEvent). add_text keys e.src_country) [] evs

unfoldable pub seen_asn : ℤ → List UsageEvent → Bool
seen_asn asn [] = false
seen_asn asn (e ∷ evs) = beq_ℤ e.src_asn asn || seen_asn asn evs

-- The centroids, in hundredths of a degree.
abbrev south : ℕ → ℤ
south n = negsuc (n - 1)

abbrev pub centroids : Map String (ℤ × ℤ)
centroids =
    ("US", (pos 3709, south 9571))
    ∷ ("GB", (pos 5538, south 344))
    ∷ ("DE", (pos 5117, pos 1045))
    ∷ ("CN", (pos 3586, pos 10419))
    ∷ ("RU", (pos 6152, pos 10532))
    ∷ ("IN", (pos 2059, pos 7896))
    ∷ ("BR", (south 1424, south 5193))
    ∷ ("AU", (south 2527, pos 13377))
    ∷ ("JP", (pos 3620, pos 13825))
    ∷ ("FR", (pos 4623, pos 221))
    ∷ ("CA", (pos 5613, south 10635))
    ∷ ("NG", (pos 908, pos 867))
    ∷ ("ZA", (south 3056, pos 2294))
    ∷ ("SG", (pos 135, pos 10382))
    ∷ ("KR", (pos 3591, pos 12777))
    ∷ []

-- An hour in nanoseconds
abbrev pub hour : ℕ
hour = 3600000000000

unfoldable pub hour_of : Time → Time
hour_of t = t - t % hour

unfoldable pub count_hour : Time → List UsageEvent → ℕ
unfolding hour_of
count_hour h [] = 0
count_hour h (e ∷ evs) = let n = count_hour h evs in if hour_of e.event_time == h then suc n else n

-- The buckets of the last `n` hours before `end`; no event is older than the zero time.
unfoldable pub buckets_before : Time → List UsageEvent → ℕ → List ℕ
unfolding count_hour
buckets_before end evs zero = []
buckets_before end evs (suc n) =
    let rest = buckets_before end evs n in
    (if leb (suc n * hour) end then count_hour (end - suc n * hour) evs else 0) ∷ rest

unfoldable pub hourly_buckets : List UsageEvent → ℕ → List ℕ
unfolding split_last buckets_before hour_of
hourly_buckets evs hours = elim (split_last evs) [
  | none ↦ []
  | some (before, last) ↦ buckets_before (hour_of last.event_time + hour) evs hours
]

module _ (fl : Floats) where
  unfoldable pub haversine_km : FloatBits → FloatBits → FloatBits → FloatBits → FloatBits
  haversine_km lat1 lon1 lat2 lon2 =
      let rad = λ (x : FloatBits). fl.div (fl.mul x fl.pi) (fl.of_int (pos 180)) in
      let half = λ (x : FloatBits). fl.sin (fl.div x (fl.of_int (pos 2))) in
      let d_lat = rad (fl.sub lat2 lat1) in
      let d_lon = rad (fl.sub lon2 lon1) in
      let a = fl.add (fl.mul (half d_lat) (half d_lat)) (
        fl.mul (fl.mul (fl.mul (fl.cos (rad lat1)) (fl.cos (rad lat2))) (half d_lon))
          (half d_lon)) in
      fl.mul (fl.mul (fl.of_int (pos 6371)) (fl.of_int (pos 2)))
        (fl.atan2 (fl.sqrt a) (fl.sqrt (fl.sub (fl.of_int (pos 1)) a)))

  unfoldable pub approx_dist_km : String → String → FloatBits
  unfolding haversine_km find
  approx_dist_km a b = elim (find a centroids) [
    | none ↦ fl.of_int (pos 0)
    | some (lat1, lon1) ↦ elim (find b centroids) [
      | none ↦ fl.of_int (pos 0)
      | some (lat2, lon2) ↦
          haversine_km (fl.hundredths lat1) (fl.hundredths lon1) (fl.hundredths lat2)
            (fl.hundredths lon2)
    ]
  ]

  unfoldable pub mean_sigma : List ℕ → FloatBits × FloatBits
  mean_sigma [] = (fl.of_int (pos 0), fl.of_int (pos 0))
  mean_sigma (v ∷ vs) =
      let count = fl.of_int (pos (length (v ∷ vs))) in
      let sum = foldl (λ t x. fl.add t (fl.of_int (pos x))) (fl.of_int (pos 0)) (v ∷ vs) in
      let mean = fl.div sum count in
      let square =
        λ (x : ℕ). fl.mul (fl.sub (fl.of_int (pos x)) mean) (fl.sub (fl.of_int (pos x)) mean) in
      let variance = foldl (λ t x. fl.add t (square x)) (fl.of_int (pos 0)) (v ∷ vs) in
      (mean, fl.sqrt (fl.div variance count))
