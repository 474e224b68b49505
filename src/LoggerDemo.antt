-- ===== src/LoggerDemo.antt =====
-- src/logger_demo.cpp: the messages that main logs, and what logger_demo.log then holds.
pub mod Written
use lowlatency_cpp.Base.{ℕ, List, [], ◌∷◌, Text}
use lowlatency_cpp.Logger.{
  char, integer, unsigned_long_integer, float, double, Value, number, c_string, std_string,
}
use lowlatency_cpp.Logger.Messages.{codes}

-- The bits of 3.4f and of 150.25.
abbrev pub ratio : ℕ
ratio = 1079613850

abbrev pub price : ℕ
price = 4639490468470587392

-- The calls of `log`, in order.
unfoldable pub calls : List (Text × List Value)
unfolding codes
calls =
    (
      codes "char:% id:% quantity:%\n",
      number char b'A' ∷ number integer 42 ∷ number unsigned_long_integer 500 ∷ [],
    )
    ∷ (codes "ratio:% price:%\n", number float ratio ∷ number double price ∷ [])
    ∷ (codes "symbol:%\n", c_string (codes "AAPL") ∷ [])
    ∷ (codes "message:%\n", std_string (codes "order accepted") ∷ [])
    ∷ (codes "percent example:100%%\n", [])
    ∷ []
