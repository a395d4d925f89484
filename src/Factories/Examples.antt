-- ===== src/Factories/Examples.antt =====
-- A stack over a service that counts how often it was made of an old one.
use monolake.Base.{ℕ, ◌+◌, [], ◌∷◌, none, some, ok, ◌≡◌, refl}
use monolake.Http.Core.{HttpServerTimeout}
use monolake.Factories.{Make, plain, without_tls}
use monolake.Factories.Stack.{Settings, HttpStack, IsNew, make_stack, make_stack-IsNew}

abbrev below : Make ℕ ℕ
below none = some (ok 0)
below (some n) = some (ok (n + 1))

abbrev timeout : HttpServerTimeout
timeout = record {
  keepalive_timeout = some 60;
  read_header_timeout = none;
  read_body_timeout = none;
}

abbrev settings : Settings ℕ ℕ ℕ ℕ ℕ ℕ ℕ ℕ ℕ (λ c. c) ok (λ e. 1)
settings = record {
  preface = 80 ∷ [];
  http_timeout = timeout;
  openid_config = none;
  router = some (ok 7);
  tls = without_tls;
}

abbrev running : HttpStack ℕ ℕ ℕ ℕ ℕ ℕ ℕ ℕ ℕ (λ c. c) ok (λ e. 1)
running = record {
  inner = plain (record {
    detector = [];
    inner = record {
      handler_chain = record {
        inner = record { inner = record { svc = 4; selector = 2 }; openid_config = none };
      };
      http_timeout = timeout;
    };
  });
}

make_stack-IsNew_example :
    (made : HttpStack ℕ ℕ ℕ ℕ ℕ ℕ ℕ ℕ ℕ (λ c. c) ok (λ e. 1)) × (make_stack ℕ ℕ ℕ ℕ ℕ ℕ ℕ ℕ ℕ
        (λ c. c)
        ok
        (λ e. 1)
        settings
        below
        (some running)
      ≡ some (ok made))
    × IsNew ℕ ℕ ℕ ℕ ℕ ℕ ℕ ℕ ℕ (λ c. c) ok (λ e. 1) settings 7 5 made.inner
make_stack-IsNew_example =
    make_stack-IsNew ℕ ℕ ℕ ℕ ℕ ℕ ℕ ℕ ℕ (λ c. c) ok (λ e. 1) settings below (some running) 7 5 refl
      tt refl
