-- ===== src/Util/Examples.antt =====
-- Runs of util/util.go and util/pool.go.
use lunnel.Base.{◌≡◌, refl, arith, ◌++◌, none}
use lunnel.Base.Text.{text, decimal}
use lunnel.Util.{int_to_short, short_loop, short_digit}
use lunnel.Util.Addr.{parse_addr, parse_addr-print}

-- The lowest digit comes first.
name_of_1000 : int_to_short 1000 ≡ text "8v"
unfolding int_to_short short_loop short_digit
name_of_1000 = refl

parse_addr-print_example :
    parse_addr (text "tcp" ++ (text "://" ++ (text "a:b" ++ (text ":" ++ decimal 8080))))
    ≡ record { schema = text "tcp"; hostname = text "a:b"; port = 8080; failed = none }
parse_addr-print_example =
    parse_addr-print (text "tcp") (text "a:b") 8080
      ((λ e. omega arith), ((λ e. omega arith), ((λ e. omega arith), tt))) (omega arith)
