-- ===== src/Tests/Encrypted.antt =====
-- Ciphers in place of which sixteen zeros are put in front of a text.
use plampshade.Base.{◌++◌, refl, some, length-append, replicate, drop, arith}
use plampshade.Link.Encrypted.{Ciphers, AreCiphers}
use plampshade.Tests.Nonces.{xor_all}

abbrev pub zeros_in_front : Ciphers
zeros_in_front = record {
  lib = record {
    xor_bytes = xor_all;
    seal = λ a n p. replicate 16 0 ++ p;
    unseal = λ a n b. some (drop 16 b);
  };
  keystream = λ key iv k b. b;
}

pub zeros_in_front-AreCiphers : AreCiphers zeros_in_front
zeros_in_front-AreCiphers = record {
  unseals = λ a n p. refl;
  seal_length = λ a n p. omega (arith, length-append (replicate 16 0) p);
  keystream_twice = λ key iv k b. refl;
  keystream_length = λ key iv k b. refl;
}
